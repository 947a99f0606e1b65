-- ===== src/Auth/Admin.antt =====
-- `auth_read` of src/Etapas/authentication.c on a management connection.
use proyecto_protos.Auth.{UserpassSt, with_authentication, authenticate, read}
use proyecto_protos.Auth.Message.{encode, parsed}
use proyecto_protos.Auth.Stage.{Waits, counted, message_lem}
use proyecto_protos.Buffer.{contents, space}
use proyecto_protos.Connection.{Key, with_read_buffer}
use proyecto_protos.Globals.{Globals}
use proyecto_protos.Selector.{Selector, op_write, set_interest}
use proyecto_protos.Selector
use proyecto_protos.Socket.{offered}
use proyecto_protos.SocksState
use proyecto_protos.Users.{User}
use proyecto_protos.Users.Table.{Holds}
use proyecto_protos.Users.Lookup.{until_zero, cstr-terminated, Absent, check_mng_credentials_lem}
use proyecto_protos.Prelude.{
  ℕ, ◌≤◌, ◌<◌, ◌≡◌, refl, inl, inr, List, [], ◌∷◌, ◌++◌, false, some, length, get_elem?,
}

-- What is said of a name and a password: whether there is an administrator that has both.
pub data Verdict (us : List User) (name pass : List ℕ) (k' : Key) : Type 0 where
  granted :
      (n : ℕ) (u : User)
      → k'.conn.authentication ≡ 0x00
      → get_elem? us n ≡ some u
      → u.name ≡ name
      → u.pass ≡ pass
      → Verdict us name pass k'
  denied : k'.conn.authentication ≡ 0x01 → Absent name pass us → Verdict us name pass k'

authenticate_lem :
    (g : Globals) (k : Key) (us : List User) (name pass : List ℕ)
    → Holds g.admins us
    → k.conn.is_socks ≡ false
    → (k' : Key) × (authenticate g k (name ++ (0 ∷ [])) (pass ++ (0 ∷ [])) ≡ some k')
      × Verdict us (until_zero name) (until_zero pass) k'
      × (k'.conn.read_buffer ≡ k.conn.read_buffer)
      × (k'.conn.write_buffer ≡ k.conn.write_buffer)
unfolding authenticate
authenticate_lem g k us name pass h mng =
    elim (check_mng_credentials_lem g.admins us (name ++ (0 ∷ [])) (pass ++ (0 ∷ [])) h
      (cstr-terminated name) (cstr-terminated pass)) [
        | inl (n, u, e, q, a, b) ↦ (
          with_authentication k 0x00 k.conn.user_index,
          rw (mng, e),
          granted n u refl q a b,
          refl,
          refl,
        )
        | inr (e, absent) ↦ (
          with_authentication k 0x01 k.conn.user_index,
          rw (mng, e),
          denied refl absent,
          refl,
          refl,
        )
      ]

-- The whole of a client's message in one read, on a management connection: if the selector takes the
-- interest, `auth_read` counts the attempt and goes on to write the answer 0, if there is an
-- administrator of that name and that password (each up to its first zero byte), and 1 if there is
-- none. Nothing is written yet.
pub auth_read_admin :
    (g : Globals) (k : Key) (d : UserpassSt) (us : List User) (name pass rest : List ℕ)
    {s : Selector}
    → Waits k d
    → Holds g.admins us
    → k.conn.is_socks ≡ false
    → length name < 256
    → length pass < 256
    → length (encode name pass ++ rest) ≤ space k.conn.read_buffer
    → set_interest k.selector k.fd op_write ≡ some (Selector.Status.success, s)
    → (k' : Key) × (read g k d (offered (encode name pass ++ rest))
        ≡ some (SocksState.userpass_write, record d { parser = parsed name pass }, k', counted g))
      × Verdict us (until_zero name) (until_zero pass) k'
      × (k'.conn.write_buffer ≡ k.conn.write_buffer)
      × (contents k'.conn.read_buffer ≡ rest)
auth_read_admin g k d us name pass rest {s} w h mng l m fits sel =
    let (k', e, (verdict, unsent), left) =
      message_lem
        (λ q.
          Verdict us (until_zero name) (until_zero pass) q
          × (q.conn.write_buffer ≡ k.conn.write_buffer))
        g k d name pass rest w
        (λ b.
          let (q, c, v, r, u) =
            authenticate_lem g (record (with_read_buffer k b) { selector = s }) us name pass h
              mng in
          (q, c, (v, u), r))
        l m fits sel in
    (k', e, verdict, unsent, left)
