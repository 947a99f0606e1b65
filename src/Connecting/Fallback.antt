-- ===== src/Connecting/Fallback.antt =====
-- src/Etapas/connecting.c when an address of the origin does not answer: the step to the next one.
use proyecto_protos.Connection.{Key}
use proyecto_protos.Connecting.{
  OriginSt, Errno, no_error, Connect, failed, errno_to_socks, Resolved, with_status, fail,
  subscribe, connection,
}
use proyecto_protos.Connecting.Writing.{
  advance, free_resolution, try_next, give_up, release, retry, refused, answer_success, write,
}
use proyecto_protos.Connecting.Outcome.{write_stands}
use proyecto_protos.Globals.{Globals}
use proyecto_protos.Request.{Status, succeeded, error_handler_to_client}
use proyecto_protos.Selector.{Interest}
use proyecto_protos.SocksState
use proyecto_protos.Prelude.{
  ℕ, ◌+◌, ◌≡◌, refl, ◌∙◌, sym, ap, ◌≢◌, ◌⊎◌, inl, inr, Bool, Option, List, [], ◌∷◌, length, some,
  none, >>=-eq-some, the_some, arith,
}

-- The stage that `error_handler_to_client` gives.
handler_stage :
    (s : Status) (k : Key) {ret : ℕ} {k' : Key}
    → error_handler_to_client s k ≡ some (ret, k')
    → ret ≡ SocksState.request_write
unfolding error_handler_to_client
handler_stage s k e = ground arith

fail_lem :
    (s : Status) (k : Key) (o : OriginSt) {ret : ℕ} {k' : Key} {o' : OriginSt}
    → fail s k o ≡ some (ret, k', o')
    → (ret ≡ SocksState.request_write) × (o' ≡ with_status o s)
unfolding fail
fail_lem s k o e =
    let (r, e0, e1) = >>=-eq-some (error_handler_to_client s k) _ e in
    (ap (λ p. p.0) (sym (the_some e1)) ∙ handler_stage s k e0, ap (λ p. p.2) (sym (the_some e1)))

-- What asking the selector does to the stage's state: the list of addresses stays, and the status can
-- only become a failure.
record Keeps (o o' : OriginSt) : Type 0 where
  pub addresses : o'.origin_resolution_current ≡ o.origin_resolution_current
  pub outcome :
      (o'.request.conn_status ≡ o.request.conn_status) ⊎ (o'.request.conn_status ≢ succeeded)

subscribe-Keeps :
    (k : Key) (o : OriginSt) (own waits : Interest) (shut memory : Bool) {st : Status} {k' : Key}
    {o' : OriginSt}
    → subscribe k o own waits shut memory ≡ some (st, k', o')
    → Keeps o o'
unfolding subscribe fail
subscribe-Keeps k o own waits shut memory e = ground arith

-- `connect` sets `errno` when it fails.
abbrev pub Reports : Connect → Type 0
Reports answer = answer ≢ failed no_error

pub errno_to_socks_lem : (e : Errno) → e ≢ no_error → errno_to_socks e ≢ succeeded
unfolding errno_to_socks
errno_to_socks_lem e ne = ground arith

connection-Keeps :
    (g : Globals) (k : Key) (o : OriginSt) (answer : Connect) (memory : Bool) {st : Status}
    {g' : Globals} {k' : Key} {o' : OriginSt}
    → Reports answer
    → connection g k o answer memory ≡ some (st, g', k', o')
    → Keeps o o'
unfolding connection subscribe fail errno_to_socks
connection-Keeps g k o answer memory reports e = ground arith

try_next_lem :
    (g : Globals) (k : Key) (o : OriginSt) (a : Resolved) (rest : List Resolved) (answer : Connect)
    (memory : Bool) {ret : ℕ} {g' : Globals} {k' : Key} {o' : OriginSt}
    → Reports answer
    → try_next g k o a rest answer memory ≡ some (ret, g', k', o')
    → (ret ≡ SocksState.request_connecting)
      × (o'.origin_resolution_current ≡ a ∷ rest)
      × (o.request.conn_status ≢ succeeded → o'.request.conn_status ≢ succeeded)
unfolding try_next advance
try_next_lem g k o a rest answer memory reports e =
    let (r, e0, e1) = >>=-eq-some (connection g k (advance o a rest) answer memory) _ e in
    ground (arith, e1, connection-Keeps g k (advance o a rest) answer memory reports e0)

-- What a call of `connecting_write` leaves.
pub record After (o : OriginSt) (ret : ℕ) (o' : OriginSt) : Type 0 where
  pub shorter :
      ret ≡ SocksState.request_connecting
      → length o'.origin_resolution_current + 1 ≡ length o.origin_resolution_current
  pub lost :
      o.request.conn_status ≢ succeeded
      → (o'.request.conn_status ≢ succeeded)
        × ((ret ≡ SocksState.request_connecting) ⊎ (ret ≡ SocksState.request_write))

give_up_lem :
    (g : Globals) (k : Key) (o : OriginSt) {ret : ℕ} {g' : Globals} {k' : Key} {o' : OriginSt}
    → give_up g k o ≡ some (ret, g', k', o')
    → (ret ≡ SocksState.request_write) × (o'.request ≡ o.request)
unfolding give_up error_handler_to_client release
give_up_lem g k o e = ground arith

-- The stage is over, its list of addresses and its status as they were.
over_After :
    {o o' : OriginSt} {ret : ℕ}
    → ret ≡ SocksState.request_write
    → (o.request.conn_status ≢ succeeded → o'.request.conn_status ≢ succeeded)
    → After o ret o'
over_After w h = record { shorter = λ e. ground arith; lost = λ n. (h n, inr w) }

retry_cases :
    (l : List Resolved) (g : Globals) (k : Key) (o : OriginSt) (answer : Connect) (memory : Bool)
    {ret : ℕ} {g' : Globals} {k' : Key} {o' : OriginSt}
    → Reports answer
    → o.origin_resolution_current ≡ l
    → retry g k o answer memory ≡ some (ret, g', k', o')
    → After o ret o'
unfolding retry
retry_cases [] g k o answer memory reports here e =
    let over : retry g k o answer memory ≡ give_up g k o = ground (arith, here) in
    let (w, same) = give_up_lem g k o (sym over ∙ e) in over_After w (rw same (λ n. n))
retry_cases (a ∷ []) g k o answer memory reports here e =
    let over : retry g k o answer memory ≡ give_up g k o = ground (arith, here) in
    let (w, same) = give_up_lem g k o (sym over ∙ e) in over_After w (rw same (λ n. n))
retry_cases (a ∷ b ∷ rest) g k o answer memory reports here e =
    let on : retry g k o answer memory ≡ try_next g k o b rest answer memory =
      ground (arith, here) in
    let (c, next, h) = try_next_lem g k o b rest answer memory reports (sym on ∙ e) in
    record { shorter = λ _. ground (arith, here, next); lost = λ n. (h n, inl c) }

pub refused_cases :
    (l : List Resolved) (g : Globals) (k : Key) (o : OriginSt) (x : Errno) (answer : Connect)
    (memory : Bool) {ret : ℕ} {g' : Globals} {k' : Key} {o' : OriginSt}
    → Reports answer
    → x ≢ no_error
    → o.origin_resolution_current ≡ l
    → refused g k o x answer memory ≡ some (ret, g', k', o')
    → After o ret o' × (o'.request.conn_status ≢ succeeded)
unfolding refused fail free_resolution error_handler_to_client
refused_cases [] g k o x answer memory {o' = o'} reports bad here e =
    let lost : o'.request.conn_status ≢ succeeded = ground (arith, errno_to_socks_lem x bad) in
    (over_After (ground arith) (λ n. lost), lost)
refused_cases (a ∷ []) g k o x answer memory {o' = o'} reports bad here e =
    let lost : o'.request.conn_status ≢ succeeded = ground (arith, errno_to_socks_lem x bad) in
    (over_After (ground arith) (λ n. lost), lost)
refused_cases (a ∷ b ∷ rest) g k o x answer memory reports bad here e =
    let on : refused g k o x answer memory
        ≡ try_next g k (with_status o (errno_to_socks x)) b rest answer memory =
      ground (arith, here) in
    let (c, next, h) =
      try_next_lem g k (with_status o (errno_to_socks x)) b rest answer memory reports
        (sym on ∙ e) in
    let lost = h (errno_to_socks_lem x bad) in
    (record { shorter = λ _. ground (arith, here, next); lost = λ n. (lost, inl c) }, lost)

answer_success-After :
    (g : Globals) (k : Key) (o : OriginSt) {ret : ℕ} {g' : Globals} {k' : Key} {o' : OriginSt}
    → answer_success g k o ≡ some (ret, g', k', o')
    → ret ≢ SocksState.request_connecting
unfolding answer_success
answer_success-After g k o e = ground arith

success_cases : (s : Status) → (s ≡ succeeded) ⊎ (s ≢ succeeded)
success_cases succeeded = inl refl
success_cases _ = inr (λ e. cc)

error_cases : (e : Errno) → (e ≡ no_error) ⊎ (e ≢ no_error)
error_cases no_error = inl refl
error_cases _ = inr (λ e. cc)

-- The first refusal.
pub write_refused :
    (g : Globals) (k : Key) (o : OriginSt) (x : Errno) (answer : Connect) (memory : Bool)
    → o.request.conn_status ≡ succeeded
    → x ≢ no_error
    → write g k o (some x) answer memory ≡ refused g k o x answer memory
unfolding write
write_refused g k o x answer memory ok bad = ground arith

write_answer :
    (g : Globals) (k : Key) (o : OriginSt) (sockopt : Option Errno) (answer : Connect)
    (memory : Bool) {ret : ℕ} {g' : Globals} {k' : Key} {o' : OriginSt}
    → Reports answer
    → o.request.conn_status ≡ succeeded
    → write g k o sockopt answer memory ≡ some (ret, g', k', o')
    → After o ret o'
unfolding write fail error_handler_to_client
write_answer g k o none answer memory reports ok e = record {
  shorter = λ c. ground (arith, e, ok);
  lost = λ n. absurd (n ok);
}
write_answer g k o (some x) answer memory reports ok e = elim (error_cases x) [
  | inl p ↦ record {
    shorter = λ c.
        absurd
          (answer_success-After _ _ _ (sym (write_stands g k o answer memory ok) ∙ (rw p at e)) c);
    lost = λ n. absurd (n ok);
  }
  | inr ne ↦
      (refused_cases _ g k o x answer memory reports ne refl
        (sym (write_refused g k o x answer memory ok ne) ∙ e)).0
]

pub write-After :
    (g : Globals) (k : Key) (o : OriginSt) (sockopt : Option Errno) (answer : Connect)
    (memory : Bool) {ret : ℕ} {g' : Globals} {k' : Key} {o' : OriginSt}
    → Reports answer
    → write g k o sockopt answer memory ≡ some (ret, g', k', o')
    → After o ret o'
unfolding write
write-After g k o sockopt answer memory reports e = elim (success_cases o.request.conn_status) [
  | inl ok ↦ write_answer g k o sockopt answer memory reports ok e
  | inr ne ↦
      (let again : write g k o sockopt answer memory ≡ retry g k o answer memory = ground arith in
        retry_cases _ g k o answer memory reports refl (sym again ∙ e))
]
