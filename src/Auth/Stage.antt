-- ===== src/Auth/Stage.antt =====
-- The handlers of src/Etapas/authentication.c on whole messages.
use proyecto_protos.Globals.{Globals, word}
use proyecto_protos.Auth.{
  UserpassSt, success, method_version, unset_parser, pointed, with_authentication, authenticate,
  process, read_parsed, read_ready, read,
}
use proyecto_protos.Auth.Message.{encode, parsed, stopped, auth_roundtrip, wrong_version}
use proyecto_protos.Buffer.Valid.{IsValid, filled, filled-IsValid}
use proyecto_protos.Buffer.Fifo.{contents-filled}
use proyecto_protos.Buffer.{Buffer, contents, space}
use proyecto_protos.Connection.{Key, with_read_buffer, set_interest_key}
use proyecto_protos.Connection.Io.{receive_lem}
use proyecto_protos.MyParser.{done_read, error_read, is_done}
use proyecto_protos.MyParser.Consume.{consume_parsed}
use proyecto_protos.Selector.{Selector, op_write, set_interest}
use proyecto_protos.Selector
use proyecto_protos.Socket.{Incoming, offered}
use proyecto_protos.SocksState
use proyecto_protos.Users.{
  User, Users, cstr, check_credentials, find_user, entry, matches, str_same,
}
use proyecto_protos.Users.Table.{Holds}
use proyecto_protos.Users.Lookup.{until_zero, cstr-terminated, Absent, check_credentials_lem}
use proyecto_protos.Prelude.{
  ℕ, ◌+◌, ◌%◌, ◌≤◌, ◌<◌, ◌≡◌, ◌≢◌, refl, ◌∙◌, ap, inl, inr, List, [], ◌∷◌, ◌++◌, true, none, some,
  length, get_elem?,
}

-- A connection with an empty read buffer, as `auth_read_init` leaves it.
pub record Waits (k : Key) (d : UserpassSt) : Type 0 where
  pub reading : IsValid k.conn.read_buffer
  pub drained : contents k.conn.read_buffer ≡ []
  pub ready : d.status ≡ success
  pub fresh : d.parser ≡ unset_parser

-- What `auth_process` says of a name and a password, of a proxy connection: `k'` is the key after it.
pub data Verdict (us : List User) (name pass : List ℕ) (k' : Key) : Type 0 where
  granted :
      (n : ℕ) (u : User)
      → k'.conn.authentication ≡ 0x00
      → k'.conn.user_index ≡ n
      → get_elem? us n ≡ some u
      → u.name ≡ name
      → u.pass ≡ pass
      → Verdict us name pass k'
  denied : k'.conn.authentication ≡ 0x01 → Absent name pass us → Verdict us name pass k'

authenticate_lem :
    (g : Globals) (k : Key) (us : List User) (name pass : List ℕ)
    → Holds g.users us
    → k.conn.is_socks ≡ true
    → (k' : Key) × (authenticate g k (name ++ (0 ∷ [])) (pass ++ (0 ∷ [])) ≡ some k')
      × Verdict us (until_zero name) (until_zero pass) k'
      × (k'.conn.read_buffer ≡ k.conn.read_buffer)
unfolding authenticate
authenticate_lem g k us name pass h socks =
    elim (check_credentials_lem g.users us (name ++ (0 ∷ [])) (pass ++ (0 ∷ [])) k.conn.user_index h
      (cstr-terminated name) (cstr-terminated pass)) [
        | inl (n, u, e, q, a, b) ↦
            (with_authentication k 0x00 n, rw (socks, e), granted n u refl refl q a b, refl)
        | inr (e, absent) ↦
            (with_authentication k 0x01 k.conn.user_index, rw (socks, e), denied refl absent, refl)
      ]

-- An attempt more.
abbrev pub counted : Globals → Globals
counted g = record g {
  metrics_historic_auth_attempts = (g.metrics_historic_auth_attempts + 1) % word;
}

parsed_lem :
    (g : Globals) (k k' : Key) (d : UserpassSt) (name pass : List ℕ) {s : Selector}
    → set_interest k.selector k.fd op_write ≡ some (Selector.Status.success, s)
    → authenticate g (record k { selector = s }) (name ++ (0 ∷ [])) (pass ++ (0 ∷ [])) ≡ some k'
    → read_parsed g k (record d { parser = parsed name pass }) done_read
      ≡ some (SocksState.userpass_write, record d { parser = parsed name pass }, k', counted g)
unfolding read_parsed process pointed is_done set_interest_key
parsed_lem g k k' d name pass sel e = rw (sel, e)

read_success :
    (g : Globals) (k : Key) (d : UserpassSt) (incoming : Incoming)
    → d.status ≡ success
    → read g k d incoming ≡ read_ready g k d incoming
unfolding read
read_success g k d incoming h = rw h

-- The whole of a client's message in one read, once it is known how its credentials are checked.
pub message_lem :
    (P : Key → Type 0) (g : Globals) (k : Key) (d : UserpassSt) (name pass rest : List ℕ)
    {s : Selector}
    → Waits k d
    → ((b : Buffer)
        → (k' : Key) × (authenticate g
              (record (with_read_buffer k b) { selector = s })
              (name ++ (0 ∷ []))
              (pass ++ (0 ∷ []))
            ≡ some k')
          × P k'
          × (k'.conn.read_buffer ≡ b))
    → length name < 256
    → length pass < 256
    → length (encode name pass ++ rest) ≤ space k.conn.read_buffer
    → set_interest k.selector k.fd op_write ≡ some (Selector.Status.success, s)
    → (k' : Key) × (read g k d (offered (encode name pass ++ rest))
        ≡ some (SocksState.userpass_write, record d { parser = parsed name pass }, k', counted g))
      × P k'
      × (contents k'.conn.read_buffer ≡ rest)
unfolding read_ready
message_lem P g k d name pass rest w checked l m fits sel =
    let b : Buffer = filled k.conn.read_buffer (encode name pass ++ rest) in
    let tail : List ℕ = length name ∷ ((name ++ (length pass ∷ pass)) ++ rest) in
    let (b', e, left, v') =
      consume_parsed b d.parser (parsed name pass) _ method_version tail rest
        (filled-IsValid _ _ w.reading fits)
        (contents-filled _ _ w.reading fits ∙ ap (λ c. c ++ (encode name pass ++ rest)) w.drained)
        (ap (λ p. get_elem? p.states 0) w.fresh) (rw w.fresh (auth_roundtrip name pass rest l m)) in
    let (k', c, verdict, same) = checked b' in
    (
      k',
      read_success g k d (offered (encode name pass ++ rest)) w.ready
          ∙ (rw (
            receive_lem k.conn.read_buffer method_version tail w.reading fits,
            e,
            parsed_lem g (with_read_buffer k b') k' d name pass sel c,
          )),
      verdict,
      ap contents same ∙ left,
    )

-- The whole of a client's message in one read, on a proxy connection: if the selector takes the
-- interest, `auth_read` counts the attempt, in a number that wraps around at 2^64, and goes on to
-- USERPASS_WRITE. The answer that it leaves for `auth_write` is 0, with the place of the user, if
-- the table has one of that name and password (each up to its first zero byte), and is 1 if it
-- has none. What follows the message stays waiting.
pub auth_read_message :
    (g : Globals) (k : Key) (d : UserpassSt) (us : List User) (name pass rest : List ℕ)
    {s : Selector}
    → Waits k d
    → Holds g.users us
    → k.conn.is_socks ≡ true
    → length name < 256
    → length pass < 256
    → length (encode name pass ++ rest) ≤ space k.conn.read_buffer
    → set_interest k.selector k.fd op_write ≡ some (Selector.Status.success, s)
    → (k' : Key) × (read g k d (offered (encode name pass ++ rest))
        ≡ some (
          SocksState.userpass_write,
          record d { parser = parsed name pass },
          k',
          record g {
            metrics_historic_auth_attempts = (g.metrics_historic_auth_attempts + 1) % word;
          },
        ))
      × Verdict us (until_zero name) (until_zero pass) k'
      × (contents k'.conn.read_buffer ≡ rest)
auth_read_message g k d us name pass rest {s} w h socks l m fits sel =
    message_lem (Verdict us (until_zero name) (until_zero pass)) g k d name pass rest w
      (λ b.
        authenticate_lem g (record (with_read_buffer k b) { selector = s }) us name pass h socks)
      l m fits sel

null_name :
    (t : Users) (u : User) (us : List User) (password : List ℕ) (user_index : ℕ)
    → Holds t (u ∷ us)
    → check_credentials t [] password user_index ≡ none
unfolding check_credentials find_user entry matches str_same cstr
null_name t u us password user_index h = rw (h.filled, h.count)

faulty_parsed :
    (g : Globals) (k : Key) (d : UserpassSt) (u : User) (us : List User) (v : ℕ) {s : Selector}
    → Holds g.users (u ∷ us)
    → k.conn.is_socks ≡ true
    → set_interest k.selector k.fd op_write ≡ some (Selector.Status.success, s)
    → read_parsed g k (record d { parser = stopped v }) error_read ≡ none
unfolding read_parsed process pointed is_done set_interest_key authenticate
faulty_parsed g k d u us v h socks sel =
    rw (sel, socks, null_name g.users u us [] k.conn.user_index h)

-- A first byte that is not the version, on a proxy connection, while there is a user: `auth_read`
-- goes on to check credentials that were never read, and gives NULL to `strcmp`.
pub wrong_version_faults :
    (g : Globals) (k : Key) (d : UserpassSt) (u : User) (us : List User) (v : ℕ) (rest : List ℕ)
    {s : Selector}
    → Waits k d
    → Holds g.users (u ∷ us)
    → k.conn.is_socks ≡ true
    → v ≢ method_version
    → length (v ∷ rest) ≤ space k.conn.read_buffer
    → set_interest k.selector k.fd op_write ≡ some (Selector.Status.success, s)
    → read g k d (offered (v ∷ rest)) ≡ none
unfolding read_ready
wrong_version_faults g k d u us v rest {s} w h socks other fits sel =
    let b : Buffer = filled k.conn.read_buffer (v ∷ rest) in
    let (b', e, left, v') =
      consume_parsed b d.parser (stopped v) _ v rest rest (filled-IsValid _ _ w.reading fits)
        (contents-filled _ _ w.reading fits ∙ ap (λ c. c ++ (v ∷ rest)) w.drained)
        (ap (λ p. get_elem? p.states 0) w.fresh) (rw w.fresh (wrong_version v rest other)) in
    read_success g k d (offered (v ∷ rest)) w.ready
    ∙ (rw (
      receive_lem k.conn.read_buffer v rest w.reading fits,
      e,
      faulty_parsed g (with_read_buffer k b') d u us v h socks sel,
    ))
