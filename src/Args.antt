-- ===== src/Args.antt =====
-- src/args.c with `address_processing` of src/address_utils.c, and the credentials that src/main.c reads
-- at its start. `getopt_long`, `strtol`, `inet_pton`, `inet_addr` and `fgets` are outside: the options, the
-- lines and what the others answer are arguments. A result of -1 is `none`; in `read_admin` and what
-- uses it a use of NULL and a write outside the table are.
pub mod Options
use proyecto_protos.Request.{Family, inet, inet6}
use proyecto_protos.Users.{User, Users, max_users}
use proyecto_protos.Prelude.{
  ℕ, suc, ◌+◌, ◌-◌, Bool, true, false, ◌||◌, Option, none, some, List, [], ◌∷◌, length, get_elem?,
  set, take, ltb, leb, ◌==◌, if◌then◌else◌, ◌>>=◌, ℤ, pos, negsuc,
}

-- What `strtol` answers: its value, whether it found no digits, stopped before the end, and was out of
-- range.
pub record Number : Type 0 where
  pub value : ℤ
  pub no_digits : Bool
  pub unfinished : Bool
  pub out_of_range : Bool

-- The library that the code calls: an address of a text, or `none` where the call fails.
pub record Library : Type 0 where
  pub strtol : List ℕ → Number
  pub inet_pton : Family → List ℕ → Option (List ℕ)
  pub inet_addr : List ℕ → List ℕ

-- `struct sockaddr_in` and `struct sockaddr_in6`; the family is `none` until it is set.
pub record SockAddr : Type 0 where
  pub family : Option Family
  pub address : List ℕ
  pub port : ℕ

-- `struct socks5args`: the parts for the proxy and for the management, which are alike, and the rest.
-- AF_UNSPEC is `none`.
pub record Listen : Type 0 where
  pub addr : List ℕ
  pub addr_6 : List ℕ
  pub port : ℕ
  pub family : Option Family
  pub addr_info : SockAddr
  pub addr_info6 : SockAddr

pub record Args : Type 0 where
  pub socks : Listen
  pub mng : Listen
  pub debug : ℕ
  pub disectors_enabled : ℕ
  pub credentials : Option (List ℕ)

-- What `getopt_long` gives for an option, its letter and its argument.
pub data Opt : Type 0 where
  debug_stdout debug_file help no_disectors version unknown : Opt
  socks_addr mng_addr socks_port mng_port credentials user : List ℕ → Opt

-- `port`: USHRT_MAX is 65535.
unfoldable pub port : Library → List ℕ → Option ℕ
port lib s =
    let n : Number = lib.strtol s in
    let bad : Bool = n.no_digits || n.unfinished || n.out_of_range in
    elim n.value [ negsuc m ↦ none | pos m ↦ if bad || ltb 65535 m then none else some m ]

-- The text before and behind the first byte of this value, as `strchr` splits it.
unfoldable pub split_at : ℕ → List ℕ → Option (List ℕ × List ℕ)
split_at c [] = none
split_at c (b ∷ bs) =
    let rest = split_at c bs in
    if b == c then some ([], bs) else (do (left, right) ← rest; some (b ∷ left, right))

-- `user`: the byte is ':'.
unfoldable pub user_of : List ℕ → Option User
user_of s = do (name, pass) ← split_at 58 s; some (record { name = name; pass = pass })

unfoldable pub address_processing :
    Library → List ℕ → SockAddr → SockAddr → ℕ → Option (Family × SockAddr × SockAddr)
address_processing lib address addr addr6 n =
    let v6 : Option (Family × SockAddr × SockAddr) = (do
      bytes ← lib.inet_pton inet6 address
      some (inet6, addr, record { family = some inet6; address = bytes; port = n })) in
    elim (lib.inet_pton inet address) [
      | none ↦ v6
      | some bytes ↦
          some
            (inet, record { family = some inet; address = lib.inet_addr address; port = n }, addr6)
    ]

-- The options `l` and `L`.
unfoldable pub set_listen : Library → List ℕ → Listen → Option Listen
set_listen lib s l = do
  (f, a, a6) ← address_processing lib s l.addr_info l.addr_info6 l.port
  let l' : Listen = record l { family = some f; addr_info = a; addr_info6 = a6 }
  some (elim f [ inet ↦ record l' { addr = s } | inet6 ↦ record l' { addr_6 = s } ])

-- The options `p` and `P`.
unfoldable pub set_port : Library → List ℕ → Listen → Option Listen
set_port lib s l = do
  n ← port lib s
  some (record l {
    port = n;
    addr_info = record (l.addr_info) { port = n };
    addr_info6 = record (l.addr_info6) { port = n };
  })

-- The option `u`.
unfoldable pub take_user : List ℕ → Users → Option Users
take_user s t =
    let taken : Option Users = (do
      u ← user_of s
      some (record { slots = set t.slots t.nusers (some u); nusers = t.nusers + 1 })) in
    if leb max_users t.nusers then none else taken

-- The body of the loop of `parse_args`.
unfoldable pub parse_option : Library → Opt → Args × Users → Option (Args × Users)
parse_option lib debug_stdout (a, t) = some (record a { debug = 1 }, t)
parse_option lib debug_file (a, t) = some (record a { debug = 2 }, t)
parse_option lib help (a, t) = none
parse_option lib version (a, t) = none
parse_option lib unknown (a, t) = none
parse_option lib no_disectors (a, t) = some (record a { disectors_enabled = 0x01 }, t)
parse_option lib (socks_addr s) (a, t) = do
  l ← set_listen lib s a.socks
  some (record a { socks = l }, t)
parse_option lib (mng_addr s) (a, t) = do l ← set_listen lib s a.mng; some (record a { mng = l }, t)
parse_option lib (socks_port s) (a, t) = do
  l ← set_port lib s a.socks
  some (record a { socks = l }, t)
parse_option lib (mng_port s) (a, t) = do l ← set_port lib s a.mng; some (record a { mng = l }, t)
parse_option lib (credentials s) (a, t) = some (record a { credentials = some s }, t)
parse_option lib (user s) (a, t) = do t' ← take_user s t; some (a, t')

-- The loop.
unfoldable pub parse_options : Library → List Opt → Args × Users → Option (Args × Users)
parse_options lib [] x = some x
parse_options lib (o ∷ os) x = do y ← parse_option lib o x; parse_options lib os y

-- The end of `parse_args` for one of the two parts: without an address both defaults are taken.
unfoldable pub set_default : Library → Listen → Option Listen
set_default lib l =
    let both : Option Listen = (do
      (f, a, a6) ← address_processing lib l.addr l.addr_info l.addr_info6 l.port
      (f', b, b6) ← address_processing lib l.addr_6 a a6 l.port
      some (record l { addr_info = b; addr_info6 = b6 })) in
    elim l.family [ none ↦ both | some f ↦ some l ]

abbrev pub zeroed : SockAddr
zeroed = record { family = none; address = []; port = 0 }

-- The values that `parse_args` starts from: "0.0.0.0", "::" and 1080, and "127.0.0.1", "::1" and 8080.
abbrev pub default_args : Args
default_args = record {
  socks = record {
    addr = 48 ∷ 46 ∷ 48 ∷ 46 ∷ 48 ∷ 46 ∷ 48 ∷ [];
    addr_6 = 58 ∷ 58 ∷ [];
    port = 1080;
    family = none;
    addr_info = zeroed;
    addr_info6 = zeroed;
  };
  mng = record {
    addr = 49 ∷ 50 ∷ 55 ∷ 46 ∷ 48 ∷ 46 ∷ 48 ∷ 46 ∷ 49 ∷ [];
    addr_6 = 58 ∷ 58 ∷ 49 ∷ [];
    port = 8080;
    family = none;
    addr_info = zeroed;
    addr_info6 = zeroed;
  };
  debug = 0;
  disectors_enabled = 0x00;
  credentials = none;
}

-- `parse_args`; `left_over` says whether arguments remain behind the options.
unfoldable pub parse_args : Library → List Opt → Bool → Users → Option (Args × Users)
parse_args lib os left_over t =
    let ended : Option (Args × Users) = (do
      (a, t') ← parse_options lib os (default_args, t)
      let defaults : Option (Args × Users) = (do
        socks ← set_default lib a.socks
        mng ← set_default lib a.mng
        some (record a { socks = socks; mng = mng }, t'))
      if left_over then none else defaults) in
    ended

-- The password of a line, less the newline at its end.
unfoldable pub strip_newline : List ℕ → List ℕ
strip_newline [] = []
strip_newline (b ∷ []) = if b == 10 then [] else b ∷ []
strip_newline (b ∷ c ∷ bs) = b ∷ strip_newline (c ∷ bs)

-- A line of the credentials in `main`: without a blank the code writes through NULL.
unfoldable pub read_admin : List ℕ → Option User
read_admin line = do
  (name, pass) ← split_at 32 line
  some (record { name = name; pass = strip_newline pass })

-- The loop over the lines. The table is not tested for room.
unfoldable pub read_admins : Users → List (List ℕ) → Option Users
read_admins t [] = some t
read_admins t (line ∷ lines) = do
  u ← read_admin line
  old ← get_elem? t.slots t.nusers
  read_admins (record { slots = set t.slots t.nusers (some u); nusers = t.nusers + 1 }) lines
