-- ===== src/Client/Entering.antt =====
-- The client of src/client and the handlers of src/Etapas/hello.c and src/Etapas/authentication.c of a
-- management connection on the same bytes: the method, and the name and the password.
use mathlib.Core.Path.{subst}
use proyecto_protos.Auth.{UserpassSt, method_version}
use proyecto_protos.Auth
use proyecto_protos.Auth.Admin.{Verdict, granted, denied, auth_read_admin}
use proyecto_protos.Auth.Message.{encode, parsed}
use proyecto_protos.Auth.Stage as AuthStage
use proyecto_protos.Buffer.{contents, space}
use proyecto_protos.Buffer.Valid.{IsValid, filled}
use proyecto_protos.Buffer.Fifo.{contents-filled}
use proyecto_protos.Client.{
  ClientUser, handshake, handshake_response, send_credentials, credentials_response,
}
use proyecto_protos.Client.Encode.{send_credentials_lem}
use proyecto_protos.Connection.{Key, with_write_buffer}
use proyecto_protos.Connection.Io.{reply_two_lem}
use proyecto_protos.Globals.{Globals}
use proyecto_protos.Hello.{HelloSt, version, mng_version, mng_auth_method, done}
use proyecto_protos.Hello
use proyecto_protos.Hello.Message.{at}
use proyecto_protos.Hello.Message as HelloMessage
use proyecto_protos.Hello.Stage.{hello_read_message}
use proyecto_protos.Hello.Stage as HelloStage
use proyecto_protos.Selector.{Selector, op_write, set_interest}
use proyecto_protos.Selector
use proyecto_protos.Socket.{offered}
use proyecto_protos.SocksState
use proyecto_protos.Users.{User}
use proyecto_protos.Users.Table.{Holds}
use proyecto_protos.Users.Lookup.{until_zero, Absent}
use proyecto_protos.Prelude.{
  ℕ, ◌+◌, ◌≤◌, ◌<◌, ◌≡◌, refl, ◌∙◌, ap, sym, Bool, true, false, List, [], ◌∷◌, ◌++◌, append-nil,
  some, length, get_elem?, ltb, if◌then◌else◌, arith,
}

-- The methods that the client offers.
abbrev offer : Bool → List ℕ
offer credentials = if credentials then 0x00 ∷ 0x02 ∷ [] else 0x00 ∷ []

-- The method that the server takes of them.
abbrev pub agreed : Bool → ℕ
agreed credentials = if credentials then 0x02 else 0xFF

handshake_message :
    (u : ClientUser) → handshake u ≡ HelloMessage.encode mng_version (offer u.credentials) ++ []
unfolding handshake
handshake_message u = ground arith

-- The hello of the client on a management connection that waits for one, with nothing left to send, in one
-- read: the server answers, and the client takes from its answer the method of a name and a password if it
-- has them, and if not that no method is acceptable.
pub method_agreed :
    (u : ClientUser) (k : Key) (d : HelloSt) {s : Selector}
    → HelloStage.Waits k d
    → k.conn.is_socks ≡ false
    → d.parser.protocol_version ≡ mng_version
    → d.parser.wanted_method ≡ mng_auth_method
    → contents k.conn.write_buffer ≡ []
    → length (handshake u) ≤ space k.conn.read_buffer
    → set_interest k.selector k.fd op_write ≡ some (Selector.Status.success, s)
    → (d' : HelloSt) × (k' : Key) × (Hello.read k (at d version 0 0xFF) (offered (handshake u))
        ≡ some (SocksState.hello_write, d', k'))
      × (d'.method ≡ agreed u.credentials)
      × (handshake_response (offered (contents k'.conn.write_buffer)) ≡ agreed u.credentials)
unfolding handshake_response
method_agreed u k d {s} w mng own wants drained fits sel =
    let ms : List ℕ = offer u.credentials in
    let message : handshake u ≡ HelloMessage.encode d.parser.protocol_version ms ++ [] =
      handshake_message u ∙ ap (λ v. HelloMessage.encode v ms ++ []) (sym own) in
    let short : length ms < 256 = ground arith in
    let (k', r, wrote, left, _) =
      hello_read_message k d ms [] w short
        (subst (λ m. length m ≤ space k.conn.read_buffer) message fits) sel in
    let choice : HelloMessage.chosen d.parser.wanted_method 0xFF ms ≡ agreed u.credentials =
      rw wants (ground arith) in
    (
      at d done 0 (HelloMessage.chosen d.parser.wanted_method 0xFF ms),
      k',
      ap (λ m. Hello.read k (at d version 0 0xFF) (offered m)) message ∙ r,
      choice,
      rw (wrote, drained) choice,
    )

-- What the client learns of its name and its password: that there is an administrator who has both, or
-- that there is none.
pub data Learnt (us : List User) (name pass : List ℕ) : ℕ → Type 0 where
  known :
      (n : ℕ) (u : User)
      → get_elem? us n ≡ some u
      → u.name ≡ name
      → u.pass ≡ pass
      → Learnt us name pass 0x00
  unknown : Absent name pass us → Learnt us name pass 0x01

learnt :
    (us : List User) (name pass : List ℕ) (k' : Key)
    → Verdict us name pass k'
    → Learnt us name pass k'.conn.authentication
learnt us name pass k' (granted n u a e x y) = subst (Learnt us name pass) (sym a) (known n u e x y)
learnt us name pass k' (denied a absent) = subst (Learnt us name pass) (sym a) (unknown absent)

-- The credentials of the client on a management connection that waits for them, with nothing left to send,
-- in one read: the server reads them as the client meant them, and what the client takes from the answer
-- says whether there is an administrator of that name and that password (each up to its first zero byte).
pub client_logs_in :
    (buffer : List ℕ) (u : ClientUser) (g : Globals) (k : Key) (d : UserpassSt) (us : List User)
    (name pass : List ℕ) {s : Selector}
    → length buffer ≡ 510
    → u.text ≡ some (record { name = name; pass = pass })
    → length name < 256
    → length pass < 256
    → length name + length pass < 507
    → AuthStage.Waits k d
    → Holds g.admins us
    → k.conn.is_socks ≡ false
    → IsValid k.conn.write_buffer
    → 2 ≤ space k.conn.write_buffer
    → contents k.conn.write_buffer ≡ []
    → length (encode name pass) ≤ space k.conn.read_buffer
    → set_interest k.selector k.fd op_write ≡ some (Selector.Status.success, s)
    → (message : List ℕ) × (d' : UserpassSt) × (k1 : Key) × (k2 : Key) × (g' : Globals)
      × (answer : ℕ) × (send_credentials buffer u ≡ some message)
      × (Auth.read g k d (offered message) ≡ some (SocksState.userpass_write, d', k1, g'))
      × (Auth.reply k1 ≡ some k2)
      × (credentials_response (offered (contents k2.conn.write_buffer)) ≡ answer)
      × Learnt us (until_zero name) (until_zero pass) answer
unfolding credentials_response Auth.reply
client_logs_in buffer u g k d us name pass {s} l e n p both w holds mng v room drained fits sel =
    let whole : encode name pass ++ [] ≡ encode name pass = append-nil (encode name pass) in
    let short : ltb (length name + length pass) 507 ≡ true = ground (arith, both) in
    let (k1, r, verdict, unsent, left) =
      auth_read_admin g k d us name pass [] w holds mng n p
        (subst (λ m. length m ≤ space k.conn.read_buffer) (sym whole) fits) sel in
    let bytes : List ℕ = method_version ∷ k1.conn.authentication ∷ [] in
    let wb = filled k.conn.write_buffer bytes in
    let sent : contents wb ≡ bytes =
      contents-filled k.conn.write_buffer bytes v room ∙ ap (λ q. q ++ bytes) drained in
    (
      encode name pass,
      record d { parser = parsed name pass },
      k1,
      with_write_buffer k1 wb,
      AuthStage.counted g,
      k1.conn.authentication,
      send_credentials_lem buffer u name pass l e n p ∙ (rw short refl),
      ap (λ m. Auth.read g k d (offered m)) (sym whole) ∙ r,
      rw (unsent, reply_two_lem k.conn.write_buffer method_version k1.conn.authentication v room)
          refl,
      rw sent refl,
      learnt us (until_zero name) (until_zero pass) k1 verdict,
    )
