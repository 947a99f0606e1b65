-- ===== src/Client/Args.antt =====
-- src/client/clientArgs.c: the options of the management client. The library is that of src/args.c, and
-- so are `port` and the use of `address_processing`, which the two files have alike. A result of -1 is
-- `none`.
use proyecto_protos.Args.{Library, Listen, split_at, set_listen, set_port, set_default, zeroed}
use proyecto_protos.Args
use proyecto_protos.Client.{ClientUser}
use proyecto_protos.Prelude.{
  ℕ, Bool, true, false, Option, none, some, List, [], ◌∷◌, if◌then◌else◌, ◌>>=◌,
}

-- `struct m16args`; its address and port are those of the management part of `struct socks5args`.
pub record ClientArgs : Type 0 where
  pub mng : Listen
  pub user : ClientUser
  pub file_path : Option (List ℕ)
  pub append : Bool
  pub debug : Bool

-- What `getopt_long` gives for an option of "dD:L:P:u:f:".
pub data Opt : Type 0 where
  debug_stdout unknown : Opt
  debug_file mng_addr mng_port user file : List ℕ → Opt

-- `user`: the byte is ':'.
unfoldable pub user_of : List ℕ → Option ClientUser
unfolding split_at
user_of s = do
  (name, pass) ← split_at 58 s
  some (record { text = some (record { name = name; pass = pass }); credentials = true })

-- The body of the loop of `parse_args`. The field `debug` is a `bool`, so that both settings are 1.
unfoldable pub parse_option : Library → Opt → ClientArgs → Option ClientArgs
unfolding user_of
parse_option lib debug_stdout a = some (record a { debug = true })
parse_option lib (debug_file s) a = some (record a { debug = true })
parse_option lib unknown a = none
parse_option lib (mng_addr s) a = do l ← set_listen lib s a.mng; some (record a { mng = l })
parse_option lib (mng_port s) a = do l ← set_port lib s a.mng; some (record a { mng = l })
parse_option lib (user s) a = do u ← user_of s; some (record a { user = u })
parse_option lib (file s) a = some (record a { file_path = some s; append = true })

-- The loop.
unfoldable pub parse_options : Library → List Opt → ClientArgs → Option ClientArgs
unfolding parse_option
parse_options lib [] a = some a
parse_options lib (o ∷ os) a = do b ← parse_option lib o a; parse_options lib os b

-- The values that `parse_args` starts from: "127.0.0.1", "::1" and 8080. The user is what `malloc` left,
-- whose flag is an argument.
abbrev pub default_args : Bool → ClientArgs
default_args left = record {
  mng = Args.default_args.mng;
  user = record { text = none; credentials = left };
  file_path = none;
  append = false;
  debug = false;
}

-- `parse_args`; `left_over` says whether arguments remain behind the options.
unfoldable pub parse_args : Library → List Opt → Bool → Bool → Option ClientArgs
unfolding parse_options
parse_args lib os left_over left = do
  a ← parse_options lib os (default_args left)
  let defaults : Option ClientArgs = (do mng ← set_default lib a.mng; some (record a { mng = mng }))
  if left_over then none else defaults
