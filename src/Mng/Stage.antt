-- ===== src/Mng/Stage.antt =====
-- The handlers of src/Etapas/mng_request.c on whole messages.
use proyecto_protos.Auth.{pointed}
use proyecto_protos.Buffer.{Buffer, contents, space, write_ptr}
use proyecto_protos.Buffer.Drain.{feed_until}
use proyecto_protos.Buffer.Valid.{IsValid, filled, put_lem, filled-IsValid}
use proyecto_protos.Buffer.Fifo.{contents-filled}
use proyecto_protos.Connection.{Key, with_read_buffer, set_interest_key}
use proyecto_protos.Connection.Io.{receive_lem}
use proyecto_protos.Globals.{Globals}
use proyecto_protos.MngState
use proyecto_protos.Mng.Message.{
  encode_add, add_parser, delete_parser, parsed_add, parsed_delete, add_message, delete_message,
}
use proyecto_protos.Mng.Marshal.{status_marshal}
use proyecto_protos.Mng.Read.{result_of, process_params, read_parsed, read_ready, read}
use proyecto_protos.Mng.{Status, code, succeeded, max_users_reached, add_user, delete_user, MngSt}
use proyecto_protos.MyParser.{State, Parser, Substate, done_read, is_done, consume_byte}
use proyecto_protos.MyParser.Consume.{consume_parsed}
use proyecto_protos.Selector.{Selector, op_write, set_interest}
use proyecto_protos.Selector
use proyecto_protos.Socket.{Incoming, offered}
use proyecto_protos.Users.{User, max_users}
use proyecto_protos.Users.Table.{Holds, add_user_lem}
use proyecto_protos.Users.Delete.{remove_first, delete_user_lem}
use proyecto_protos.Users.Lookup.{until_zero, cstr-terminated}
use proyecto_protos.Prelude.{
  ℕ, ◌≤◌, ◌<◌, ◌≡◌, refl, ◌∙◌, ap, inl, inr, List, [], ◌∷◌, ◌++◌, true, false, some, length,
  get_elem?, ◌==◌, arith,
}

-- A connection with an empty read buffer and room for a reply, whose parser waits for a message.
pub record Waits (k : Key) (d : MngSt) (p : Parser) : Type 0 where
  pub reading : IsValid k.conn.read_buffer
  pub drained : contents k.conn.read_buffer ≡ []
  pub writing : IsValid k.conn.write_buffer
  pub room : 1 ≤ space k.conn.write_buffer
  pub ready : d.status ≡ succeeded
  pub fresh : d.parser ≡ p

status_lem :
    (b : Buffer) (s : Status)
    → IsValid b
    → 1 ≤ space b
    → status_marshal b s ≡ some (filled b (code s ∷ []))
unfolding status_marshal write_ptr
status_lem b s v h = ground (arith, put_lem b (code s ∷ []) v h)

-- The users after a request to add one, and what is replied.
pub data Added (us : List User) (u : User) (g g' : Globals) : Status → Type 0 where
  appended : length us < max_users → Holds g'.users (us ++ (u ∷ [])) → Added us u g g' succeeded
  no_place : length us ≡ max_users → g' ≡ g → Added us u g g' max_users_reached

-- What `process_mng_params_request` does with a user to add.
process_add :
    (g : Globals) (d : MngSt) (b : Buffer) (us : List User) (name pass : List ℕ)
    → Holds g.users us
    → IsValid b
    → 1 ≤ space b
    → d.index ≡ some add_user
    → (g' : Globals) × (s : Status) × (process_params g
          (record d { parser = parsed_add name pass })
          b
        ≡ some (g', filled b (code s ∷ [])))
      × Added us (record { name = until_zero name; pass = until_zero pass }) g g' s
unfolding process_params result_of pointed
process_add g d b us name pass h v room index =
    let (t, e, cases) =
      add_user_lem g.users us (name ++ (0 ∷ [])) (pass ++ (0 ∷ [])) h (cstr-terminated name)
        (cstr-terminated pass) in
    elim cases [
      | inl (fits, h') ↦
          (let some_left : (g.users.nusers == max_users) ≡ false = ground (arith, h.count) in
            (
              record g { users = t },
              succeeded,
              rw (index, some_left, e, status_lem b succeeded v room),
              appended fits h',
            ))
      | inr (full, same) ↦
          (let none_left : (g.users.nusers == max_users) ≡ true = ground (arith, h.count) in
            (
              g,
              max_users_reached,
              rw (index, none_left, status_lem b max_users_reached v room),
              no_place full refl,
            ))
    ]

process_delete :
    (g : Globals) (d : MngSt) (b : Buffer) (us : List User) (name : List ℕ)
    → Holds g.users us
    → IsValid b
    → 1 ≤ space b
    → d.index ≡ some delete_user
    → (g' : Globals) × (process_params g (record d { parser = parsed_delete name }) b
        ≡ some (g', filled b (code succeeded ∷ [])))
      × Holds g'.users (remove_first (until_zero name) us)
unfolding process_params result_of pointed
process_delete g d b us name h v room index =
    let (t, e, h') = delete_user_lem g.users us (name ++ (0 ∷ [])) h (cstr-terminated name) in
    (record g { users = t }, rw (index, e, status_lem b succeeded v room), h')

read_success :
    (g : Globals) (k : Key) (d : MngSt) (incoming : Incoming)
    → d.status ≡ succeeded
    → read g k d incoming ≡ read_ready g k d incoming
unfolding read
read_success g k d incoming h = rw h

-- The key once the selector has taken the interest and the reply is written.
abbrev answered : Key → Buffer → Selector → Status → Key
answered k b s status = record k {
  selector = s;
  conn = record (k.conn) {
    read_buffer = b;
    write_buffer = filled k.conn.write_buffer (code status ∷ []);
  };
}

parsed_done :
    (g g' : Globals) (k : Key) (d : MngSt) (b : Buffer) (status : Status) (st : State)
    {s : Selector}
    → st ≡ done_read
    → set_interest k.selector k.fd op_write ≡ some (Selector.Status.success, s)
    → process_params g d k.conn.write_buffer
      ≡ some (g', filled k.conn.write_buffer (code status ∷ []))
    → read_parsed g (with_read_buffer k b) d st
      ≡ some (MngState.request_write, d, answered k b s status, g')
unfolding read_parsed is_done set_interest_key
parsed_done g g' k d b status st f sel e = rw (f, sel, e)

-- A whole message in one read, once its processing is known.
message_lem :
    (g g' : Globals) (k : Key) (d : MngSt) (p p' : Parser) (status : Status) (x : ℕ)
    (xs rest : List ℕ) {s : Selector} {first : Substate}
    → Waits k d p
    → get_elem? p.states 0 ≡ some first
    → p'.current ≡ done_read
    → feed_until consume_byte p (x ∷ xs) ≡ some (p', rest)
    → length (x ∷ xs) ≤ space k.conn.read_buffer
    → set_interest k.selector k.fd op_write ≡ some (Selector.Status.success, s)
    → process_params g (record d { parser = p' }) k.conn.write_buffer
      ≡ some (g', filled k.conn.write_buffer (code status ∷ []))
    → (k' : Key) × (read g k d (offered (x ∷ xs))
        ≡ some (MngState.request_write, record d { parser = p' }, k', g'))
      × (contents k'.conn.write_buffer ≡ contents k.conn.write_buffer ++ (code status ∷ []))
      × (contents k'.conn.read_buffer ≡ rest)
unfolding read_ready
message_lem g g' k d p p' status x xs rest {s} {first} w start finished parse fits sel e =
    let (b', c, left, v') =
      consume_parsed (filled k.conn.read_buffer (x ∷ xs)) d.parser p' first x xs rest
        (filled-IsValid _ _ w.reading fits)
        (contents-filled _ _ w.reading fits ∙ ap (λ l. l ++ (x ∷ xs)) w.drained)
        (ap (λ q. get_elem? q.states 0) w.fresh ∙ start) (rw w.fresh parse) in
    (
      answered k b' s status,
      read_success g k d (offered (x ∷ xs)) w.ready
          ∙ (rw (
            receive_lem k.conn.read_buffer x xs w.reading fits,
            c,
            parsed_done g g' k (record d { parser = p' }) b' status p'.current finished sel e,
          )),
      contents-filled k.conn.write_buffer (code status ∷ []) w.writing w.room,
      left,
    )

-- The whole of a request to add a user in one read: if the selector takes the interest, with fewer
-- than 255 users `mng_request_read` appends the user (name and password each up to its first zero
-- byte) and replies 0; with 255 it changes no global and replies 3. It goes on to MNG_REQUEST_WRITE,
-- and what follows the message stays waiting.
pub add_user_message :
    (g : Globals) (k : Key) (d : MngSt) (us : List User) (name pass rest : List ℕ) {s : Selector}
    → Waits k d add_parser
    → Holds g.users us
    → d.index ≡ some add_user
    → length name < 256
    → length pass < 256
    → length (encode_add name pass ++ rest) ≤ space k.conn.read_buffer
    → set_interest k.selector k.fd op_write ≡ some (Selector.Status.success, s)
    → (g' : Globals) × (status : Status) × (k' : Key) × Added us
        (record { name = until_zero name; pass = until_zero pass })
        g
        g'
        status
      × (read g k d (offered (encode_add name pass ++ rest))
          ≡ some (MngState.request_write, record d { parser = parsed_add name pass }, k', g'))
      × (contents k'.conn.write_buffer ≡ contents k.conn.write_buffer ++ (code status ∷ []))
      × (contents k'.conn.read_buffer ≡ rest)
add_user_message g k d us name pass rest {s} w h index l m fits sel =
    let (g', status, e, added) =
      process_add g d k.conn.write_buffer us name pass h w.writing w.room index in
    let (k', r, c, left) =
      message_lem g g' k d add_parser (parsed_add name pass) status (length name)
        ((name ++ (length pass ∷ pass)) ++ rest) rest w refl refl (add_message name pass rest l m)
        fits sel e in
    (g', status, k', added, r, c, left)

-- The whole of a request to delete a user in one read: if the selector takes the interest,
-- `mng_request_read` takes the first user of that name (up to its first zero byte) out of the table,
-- if there is one, replies 0 whether there is or not, and goes on to MNG_REQUEST_WRITE; what follows
-- the message stays waiting.
pub delete_user_message :
    (g : Globals) (k : Key) (d : MngSt) (us : List User) (name rest : List ℕ) {s : Selector}
    → Waits k d delete_parser
    → Holds g.users us
    → d.index ≡ some delete_user
    → length name < 256
    → length ((length name ∷ name) ++ rest) ≤ space k.conn.read_buffer
    → set_interest k.selector k.fd op_write ≡ some (Selector.Status.success, s)
    → (g' : Globals) × (k' : Key) × Holds g'.users (remove_first (until_zero name) us)
      × (read g k d (offered ((length name ∷ name) ++ rest))
          ≡ some (MngState.request_write, record d { parser = parsed_delete name }, k', g'))
      × (contents k'.conn.write_buffer ≡ contents k.conn.write_buffer ++ (0x00 ∷ []))
      × (contents k'.conn.read_buffer ≡ rest)
unfolding code
delete_user_message g k d us name rest {s} w h index l fits sel =
    let (g', e, h') = process_delete g d k.conn.write_buffer us name h w.writing w.room index in
    let (k', r, c, left) =
      message_lem g g' k d delete_parser (parsed_delete name) succeeded (length name) (name ++ rest)
        rest w refl refl (delete_message name rest l) fits sel e in
    (g', k', h', r, c, left)
