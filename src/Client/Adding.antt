-- ===== src/Client/Adding.antt =====
-- The client of src/client/clientUtils.c and the handlers of src/Etapas/mng_request.c on the same bytes:
-- a request to add a user, from what is typed to the answer that is shown.
use proyecto_protos.Buffer.{reset, contents, space}
use proyecto_protos.Buffer.Valid.{filled, filled-IsValid, reset-IsValid}
use proyecto_protos.Buffer.Window.{window-empty}
use proyecto_protos.Client.{Typed, send_request}
use proyecto_protos.Client.Requests.{send_add}
use proyecto_protos.Client.Reply.{
  Outcome, finished, refused, error_text, append_stats, show_reply, received, request_response,
}
use proyecto_protos.Connection.{Key, with_read_buffer, set_interest_key}
use proyecto_protos.Globals.{Globals}
use proyecto_protos.Mng.{
  MngSt, Status, code, succeeded, server_error, index_not_supported, max_users_reached, add_user,
  index_of, request_init, add_user_parser_init,
}
use proyecto_protos.Mng.Chosen.{index_parser, chosen, index_read_lem}
use proyecto_protos.Mng.Message.{encode_add, add_parser, parsed_add}
use proyecto_protos.Mng.Read.{process_index, index_next, index_read, read}
use proyecto_protos.Mng.Stage.{Waits, Added, add_user_message}
use proyecto_protos.MngState
use proyecto_protos.MyParser
use proyecto_protos.Selector.{Selector, op_read, op_write, set_interest}
use proyecto_protos.Selector
use proyecto_protos.Socket.{offered}
use proyecto_protos.Users.Table.{Holds}
use proyecto_protos.Users.Lookup.{until_zero}
use proyecto_protos.Users.{User}
use proyecto_protos.Prelude.{
  ℕ, ◌≤◌, ◌<◌, ◌≡◌, refl, ◌∙◌, ap, sym, List, [], ◌∷◌, ◌++◌, append-nil, true, false, none, some,
  length, pos, arith,
}

-- What the client shows of a status that answers such a request.
abbrev pub told : Status → Outcome
told succeeded = record { shown = finished 10; success = true; appended = none }
told status = record { shown = refused status; success = false; appended = none }

-- The reply of a status alone.
pub told_lem :
    (array : List ℕ) (status : Status)
    → request_response array (offered (code status ∷ [])) (pos 10) false ≡ some (told status)
unfolding request_response received code show_reply append_stats error_text
told_lem array succeeded = refl
told_lem array server_error = refl
told_lem array index_not_supported = refl
told_lem array max_users_reached = refl

-- The connection and the stage once the index of the request has been read.
abbrev asked : Key → Selector → Key
asked k s = record (with_read_buffer k (reset (filled k.conn.read_buffer (0x0A ∷ [])))) {
  selector = s;
}

abbrev adding : MngSt → MngSt
adding d = record d { parser = chosen 0x0A; index = some add_user }

index_taken :
    (g : Globals) (k : Key) (d : MngSt) (behind : List ℕ) {s : Selector}
    → Waits k d index_parser
    → 1 ≤ space k.conn.read_buffer
    → set_interest k.selector k.fd op_read ≡ some (Selector.Status.success, s)
    → index_read g k d (offered (0x0A ∷ behind)) ≡ some (MngState.request_read, adding d, asked k s)
unfolding index_of process_index index_next set_interest_key
index_taken g k d behind w room sel =
    index_read_lem g k d 0x0A add_user behind w room refl ∙ rw sel refl

parser_ready :
    (d : MngSt)
    → request_init (adding d) true
      ≡ some (record (adding d) { parser = add_parser; status = succeeded })
unfolding request_init add_user_parser_init MyParser.init
parser_ready d = refl

asked-Waits :
    (k : Key) (d : MngSt) (s : Selector)
    → Waits k d index_parser
    → 1 ≤ space k.conn.read_buffer
    → Waits (asked k s) (record (adding d) { parser = add_parser; status = succeeded }) add_parser
unfolding reset
asked-Waits k d s w room = record {
  reading = reset-IsValid (filled-IsValid _ _ w.reading room);
  drained = window-empty 0 0 _ (omega arith);
  writing = w.writing;
  room = w.room;
  ready = refl;
  fresh = refl;
}

-- The user of the client asks to add a user, with a name and a password of at most 254 bytes, and the
-- server waits for an index. Then the server's handlers read the index and the message that the client
-- sends, add the user unless the table is full, and reply one byte, of which the client shows what
-- happened.
pub client_adds_user :
    (buffer array : List ℕ) (typed : Typed) (g : Globals) (k : Key) (d : MngSt) (us : List User)
    (name pass : List ℕ) {s1 s2 : Selector}
    → length buffer ≡ 512
    → typed ≡ record { number = some (pos 10); first = some name; second = some pass }
    → length name < 255
    → length pass < 255
    → Waits k d index_parser
    → Holds g.users us
    → 1 ≤ space k.conn.read_buffer
    → length (encode_add name pass) ≤ k.conn.read_buffer.limit
    → set_interest k.selector k.fd op_read ≡ some (Selector.Status.success, s1)
    → set_interest s1 k.fd op_write ≡ some (Selector.Status.success, s2)
    → (message : List ℕ) × (d1 : MngSt) × (d2 : MngSt) × (d3 : MngSt) × (k1 : Key) × (k2 : Key)
      × (g' : Globals) × (status : Status) × (send_request buffer typed
          ≡ some (pos 10, some (0x0A ∷ message)))
      × (index_read g k d (offered (0x0A ∷ message)) ≡ some (MngState.request_read, d1, k1))
      × (request_init d1 true ≡ some d2)
      × (read g k1 d2 (offered message) ≡ some (MngState.request_write, d3, k2, g'))
      × Added us (record { name = until_zero name; pass = until_zero pass }) g g' status
      × (contents k2.conn.write_buffer ≡ contents k.conn.write_buffer ++ (code status ∷ []))
      × (request_response array (offered (code status ∷ [])) (pos 10) false ≡ some (told status))
unfolding reset
client_adds_user buffer array typed g k d us name pass {s1} {s2} l e h i w holds room fits r1 r2 =
    let d2 : MngSt = record (adding d) { parser = add_parser; status = succeeded } in
    let whole : encode_add name pass ++ [] ≡ encode_add name pass =
      append-nil (encode_add name pass) in
    let (g', status, k', added, came, wrote, left) =
      add_user_message g (asked k s1) d2 us name pass [] (asked-Waits k d s1 w room) holds refl
        (omega arith) (omega arith) (omega (arith, ap length whole)) r2 in
    (
      encode_add name pass,
      adding d,
      d2,
      record d2 { parser = parsed_add name pass },
      asked k s1,
      k',
      g',
      status,
      send_add buffer typed name pass l e h i,
      index_taken g k d (encode_add name pass) w room r1,
      parser_ready d,
      ap (λ m. read g (asked k s1) d2 (offered m)) (sym whole) ∙ came,
      added,
      wrote,
      told_lem array status,
    )
