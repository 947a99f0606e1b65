-- ===== src/Args/Options.antt =====
-- What `parse_args` of src/args.c makes of the options.
use mathlib.Core.Path.{subst}
use proyecto_protos.Args.{
  Library, Args, Listen, Opt, debug_stdout, debug_file, help, no_disectors, version, unknown,
  socks_addr, mng_addr, socks_port, mng_port, credentials, user, port, split_at, user_of,
  set_listen, set_port, take_user, parse_option, parse_options, set_default, default_args,
  parse_args,
}
use proyecto_protos.Users.{User, Users, max_users}
use proyecto_protos.Users.Table.{Holds, added}
use proyecto_protos.Prelude.{
  ℕ, ◌+◌, ◌≤◌, ◌≡◌, sym, ap, ◌≢◌, inl, inr, Bool, Bool-cases, some, List, [], ◌∷◌, ◌++◌,
  append_assoc, append-nil, set, leb, ◌==◌, ==_iff, >>=-eq-some, the_some, arith,
}

-- The byte is not in the text.
abbrev pub Lacks : ℕ → List ℕ → Type 0
Lacks c [] = Unit {0}
Lacks c (b ∷ bs) = (b ≢ c) × Lacks c bs

-- The users that the options name, in their order: the text of each up to its first ':', and behind it.
pub data Given : List Opt → List User → Type 0 where
  no_more : Given [] []
  other :
      (o : Opt) {os : List Opt} {us : List User}
      → ((s : List ℕ) → o ≢ user s)
      → Given os us
      → Given (o ∷ os) us
  named :
      (name pass : List ℕ) {os : List Opt} {us : List User}
      → Lacks 58 name
      → Given os us
      → Given (user (name ++ (58 ∷ pass)) ∷ os) (record { name = name; pass = pass } ∷ us)

-- The text `s` in two parts, about its first byte `c`.
abbrev Parts : ℕ → List ℕ → List ℕ × List ℕ → Type 0
Parts c s p = (s ≡ p.0 ++ (c ∷ p.1)) × Lacks c p.0

split_at_lem : (c : ℕ) (s : List ℕ) {p : List ℕ × List ℕ} → split_at c s ≡ some p → Parts c s p
unfolding split_at
split_at_lem c [] e = cc
split_at_lem c (b ∷ bs) {p} e = elim (Bool-cases (b == c)) [
  | inl y ↦
      subst (Parts c (b ∷ bs)) (the_some (rw y at e)) (ap (λ x. x ∷ bs) ((==_iff b c).0 y), tt)
  | inr n ↦
      (let (q, found, more) = >>=-eq-some (split_at c bs) _ (rw n at e) in
        let (same, lacks) = split_at_lem c bs found in
        subst (Parts c (b ∷ bs)) (the_some more) (ap (λ x. b ∷ x) same, (ground (arith, n), lacks)))
]

-- The ports of both parts.
abbrev pub InRange : Args → Type 0
InRange a = (a.socks.port ≤ 65535) × (a.mng.port ≤ 65535)

port_bound : (lib : Library) (s : List ℕ) {n : ℕ} → port lib s ≡ some n → n ≤ 65535
unfolding port
port_bound lib s e = ground (arith, e)

set_port_bound :
    (lib : Library) (s : List ℕ) (l : Listen) {l' : Listen}
    → set_port lib s l ≡ some l'
    → l'.port ≤ 65535
unfolding set_port
set_port_bound lib s l e =
    let (n, q, r) = >>=-eq-some (port lib s) _ e in ground (arith, port_bound lib s q, r)

set_listen-port :
    (lib : Library) (s : List ℕ) (l : Listen) {l' : Listen}
    → set_listen lib s l ≡ some l'
    → l'.port ≡ l.port
unfolding set_listen
set_listen-port lib s l e = ground (arith, e)

set_default-port :
    (lib : Library) (l : Listen) {l' : Listen} → set_default lib l ≡ some l' → l'.port ≡ l.port
unfolding set_default
set_default-port lib l e = ground (arith, e)

-- What an option makes of the arguments and of the users `us`.
record Step (o : Opt) (us : List User) (x : Args × Users) : Type 0 where
  pub news : List User
  pub given : (os : List Opt) (more : List User) → Given os more → Given (o ∷ os) (news ++ more)
  pub holds : Holds x.1 (us ++ news)
  pub ports : InRange x.0

take_user_lem :
    (s : List ℕ) (t : Users) (us : List User) {t' : Users}
    → Holds t us
    → take_user s t ≡ some t'
    → (name : List ℕ) × (pass : List ℕ) × (s ≡ name ++ (58 ∷ pass))
      × Lacks 58 name
      × Holds t' (us ++ (record { name = name; pass = pass } ∷ []))
unfolding take_user user_of
take_user_lem s t us {t'} h e = elim (Bool-cases (leb max_users t.nusers)) [
  | inl full ↦ absurd (ground (arith, e, full))
  | inr room ↦
      (let (u, q, r) = >>=-eq-some (user_of s) _ (rw room at e) in
        let (p, split, made) = >>=-eq-some (split_at 58 s) _ q in
        let (same, lacks) = split_at_lem 58 s split in
        let (old, _, h') =
          added t us u h.free h.filled h.count h.capacity (ground (arith, h.count, room)) in
        (
          p.0,
          p.1,
          same,
          lacks,
          subst (λ x. Holds x (us ++ (record { name = p.0; pass = p.1 } ∷ []))) (the_some r)
              (subst
                (λ x.
                  Holds (record { slots = set t.slots t.nusers (some u); nusers = t.nusers + 1 })
                    (us ++ (x ∷ [])))
                (sym (the_some made)) h'),
        ))
]

-- An option that names no user.
kept :
    (o : Opt) (us : List User) (a : Args) (t : Users)
    → ((s : List ℕ) → o ≢ user s)
    → Holds t us
    → InRange a
    → Step o us (a, t)
kept o us a t ne h r = record {
  news = [];
  given = λ os more g. other o ne g;
  holds = subst (Holds t) (sym (append-nil us)) h;
  ports = r;
}

option_lem :
    (lib : Library) (o : Opt) (a : Args) (t : Users) (us : List User) {x : Args × Users}
    → Holds t us
    → InRange a
    → parse_option lib o (a, t) ≡ some x
    → Step o us x
unfolding parse_option
option_lem lib debug_stdout a t us h r e =
    subst (Step debug_stdout us) (the_some e)
      (kept debug_stdout us (record a { debug = 1 }) t (λ s q. cc) h r)
option_lem lib debug_file a t us h r e =
    subst (Step debug_file us) (the_some e)
      (kept debug_file us (record a { debug = 2 }) t (λ s q. cc) h r)
option_lem lib help a t us h r e = cc
option_lem lib version a t us h r e = cc
option_lem lib unknown a t us h r e = cc
option_lem lib no_disectors a t us h r e =
    subst (Step no_disectors us) (the_some e)
      (kept no_disectors us (record a { disectors_enabled = 0x01 }) t (λ s q. cc) h r)
option_lem lib (credentials s) a t us h r e =
    subst (Step (credentials s) us) (the_some e)
      (kept (credentials s) us (record a { credentials = some s }) t (λ s' q. cc) h r)
option_lem lib (socks_addr s) a t us h r e =
    let (l, q, e1) = >>=-eq-some (set_listen lib s a.socks) _ e in
    subst (Step (socks_addr s) us) (the_some e1) (
      kept (socks_addr s) us (record a { socks = l }) t (λ s' p. cc) h
        (omega (arith, set_listen-port lib s a.socks q, r.0), r.1))
option_lem lib (mng_addr s) a t us h r e =
    let (l, q, e1) = >>=-eq-some (set_listen lib s a.mng) _ e in
    subst (Step (mng_addr s) us) (the_some e1) (
      kept (mng_addr s) us (record a { mng = l }) t (λ s' p. cc) h
        (r.0, omega (arith, set_listen-port lib s a.mng q, r.1)))
option_lem lib (socks_port s) a t us h r e =
    let (l, q, e1) = >>=-eq-some (set_port lib s a.socks) _ e in
    subst (Step (socks_port s) us) (the_some e1) (
      kept (socks_port s) us (record a { socks = l }) t (λ s' p. cc) h
        (set_port_bound lib s a.socks q, r.1))
option_lem lib (mng_port s) a t us h r e =
    let (l, q, e1) = >>=-eq-some (set_port lib s a.mng) _ e in
    subst (Step (mng_port s) us) (the_some e1) (
      kept (mng_port s) us (record a { mng = l }) t (λ s' p. cc) h
        (r.0, set_port_bound lib s a.mng q))
option_lem lib (user s) a t us h r e =
    let (t', q, e1) = >>=-eq-some (take_user s t) _ e in
    let (name, pass, same, lacks, h') = take_user_lem s t us h q in
    subst (Step (user s) us) (the_some e1) (record {
      news = record { name = name; pass = pass } ∷ [];
      given = λ os more g.
          subst (λ x. Given (user x ∷ os) (record { name = name; pass = pass } ∷ more)) (sym same)
            (named name pass lacks g);
      holds = h';
      ports = r;
    })

options_lem :
    (lib : Library) (os : List Opt) (a : Args) (t : Users) (us : List User) {x : Args × Users}
    → Holds t us
    → InRange a
    → parse_options lib os (a, t) ≡ some x
    → (news : List User) × Given os news × Holds x.1 (us ++ news) × InRange x.0
unfolding parse_options
options_lem lib [] a t us {x} h r e =
    subst (λ y. (news : List User) × Given [] news × Holds y.1 (us ++ news) × InRange y.0)
      (the_some e) ([], no_more, subst (Holds t) (sym (append-nil us)) h, r)
options_lem lib (o ∷ os) a t us {x} h r e =
    let (y, q, e1) = >>=-eq-some (parse_option lib o (a, t)) _ e in
    let s : Step o us y = option_lem lib o a t us h r q in
    let (more, g, h', r') = options_lem lib os y.0 y.1 (us ++ s.news) s.holds s.ports e1 in
    (s.news ++ more, s.given os more g, subst (Holds x.1) (append_assoc us s.news more) h', r')

-- Options that `parse_args` takes leave the table with the users that it held and, behind them in
-- their order, those that the options name, each split at its first ':'; and both ports fit in 16
-- bits.
pub options_taken :
    (lib : Library) (os : List Opt) (left_over : Bool) (t : Users) (us : List User) {a : Args}
    {t' : Users}
    → Holds t us
    → parse_args lib os left_over t ≡ some (a, t')
    → (news : List User) × Given os news × Holds t' (us ++ news) × InRange a
unfolding parse_args
options_taken lib os left_over t us {a} {t'} h e =
    let (x, q, e1) = >>=-eq-some (parse_options lib os (default_args, t)) _ e in
    let (news, g, h', r) = options_lem lib os default_args t us h (omega arith, omega arith) q in
    elim (Bool-cases left_over) [
      | inl extra ↦ cc
      | inr complete ↦
          (let (socks, p, e2) = >>=-eq-some (set_default lib x.0.socks) _ (rw complete at e1) in
            let (mng, p', e3) = >>=-eq-some (set_default lib x.0.mng) _ e2 in
            (
              news,
              g,
              subst (λ y. Holds y (us ++ news)) (ap (λ y. y.1) (the_some e3)) h',
              subst (λ y. InRange y) (ap (λ y. y.0) (the_some e3))
                  (
                    omega (arith, set_default-port lib x.0.socks p, r.0),
                    omega (arith, set_default-port lib x.0.mng p', r.1),
                  ),
            ))
    ]
