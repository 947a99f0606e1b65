-- ===== src/Connection.antt =====
-- `struct socks5` of include/socks5nio.h, less the per-state unions, and the key that a handler gets.
pub mod Io
use proyecto_protos.Buffer.{Buffer, write_ptr, read_ptr, write_adv, put, can_read, read_adv}
use proyecto_protos.Selector.{Selector, Interest, Status, success, set_interest}
use proyecto_protos.Socket.{
  Incoming, Outgoing, broken, offered, refused, accepts, recv_some, send_some,
}
use proyecto_protos.Prelude.{
  ℕ, Bool, true, false, Option, none, some, List, [], ◌∷◌, length, ltb, ◌>>=◌, ◌>>◌, ℤ, pos,
  if◌then◌else◌,
}

pub record Connection : Type 0 where
  pub client_fd : ℤ
  pub origin_fd : ℤ
  pub error_state : ℕ
  pub done_state : ℕ
  pub is_socks : Bool
  pub read_buffer : Buffer
  pub write_buffer : Buffer
  pub authentication : ℕ
  pub user_index : ℕ

-- `struct selector_key`, with the selector and the connection that it points to.
pub record Key : Type 0 where
  pub fd : ℤ
  pub selector : Selector
  pub conn : Connection

-- `selector_set_interest_key`, and whether it returned SELECTOR_SUCCESS.
unfoldable pub set_interest_key : Key → Interest → Option (Bool × Key)
set_interest_key k i = do
  (ret, s) ← set_interest k.selector k.fd i
  some (elim ret [ success ↦ true | _ ↦ false ], record k { selector = s })

abbrev pub with_read_buffer : Key → Buffer → Key
with_read_buffer k b = record k { conn = record (k.conn) { read_buffer = b } }

abbrev pub with_write_buffer : Key → Buffer → Key
with_write_buffer k b = record k { conn = record (k.conn) { write_buffer = b } }

-- How each reading handler begins: `buffer_write_ptr`, `recv`, and `buffer_write_adv` if `n > 0`.
-- `none` inside stands for `n <= 0`.
unfoldable pub receive : Buffer → Incoming → Option (Option Buffer)
receive b broken = do p ← write_ptr b; some none
receive b (offered bs) = do
  got ← recv_some b bs
  elim got [ [] ↦ some none | x ∷ xs ↦ (do b' ← put b (x ∷ xs); some (some b')) ]

-- How each writing handler begins: `buffer_read_ptr`, `send`, and `buffer_read_adv` unless `n` is -1.
unfoldable pub transmit : Buffer → Outgoing → Option (Option Buffer)
transmit b refused = do p ← read_ptr b; some none
transmit b (accepts n) = do sent ← send_some b n; b' ← read_adv b (pos sent); some (some b')

-- A reply of two bytes, as `hello_marshal` and `auth_reply` write it: -1 is `none`.
unfoldable pub reply_two : Buffer → ℕ → ℕ → Option (Option Buffer)
reply_two b x y = do
  (p, n) ← write_ptr b
  let written : Option (Option Buffer) = (do b' ← put b (x ∷ y ∷ []); some (some b'))
  if ltb n 2 then some none else written
