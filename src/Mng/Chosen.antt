-- ===== src/Mng/Chosen.antt =====
-- `mng_request_index_read` of src/Etapas/mng_request.c on the byte of an index that there is.
use proyecto_protos.Auth.{pointed}
use proyecto_protos.Buffer.{Buffer, reset, space, write_ptr}
use proyecto_protos.Buffer.Valid.{filled, filled-IsValid}
use proyecto_protos.Buffer.Fifo.{contents-filled}
use proyecto_protos.Bytes.{set_byte}
use proyecto_protos.Connection.{Key, with_read_buffer, with_write_buffer}
use proyecto_protos.Connection.Io.{receive_lem}
use proyecto_protos.Globals.{Globals}
use proyecto_protos.Mng.{MngSt, Index, succeeded, check_index, index_of, byte_substate, parser_of}
use proyecto_protos.Mng.Read.{
  process_index, index_next, index_parsed, one_byte, index_ready, index_read,
}
use proyecto_protos.Mng.Stage.{Waits}
use proyecto_protos.MyParser.{
  Parser, done_read, dispatch, feed, feed_long, finish_long, advance, is_done, consume_byte,
}
use proyecto_protos.MyParser.Consume.{consume_one}
use proyecto_protos.Socket.{Incoming, offered}
use proyecto_protos.Prelude.{
  ℕ, ◌≤◌, ◌≡◌, refl, ◌∙◌, ap, List, [], ◌∷◌, ◌++◌, true, false, some, get_elem?, leb, ◌==◌, ◌>>=◌,
  arith,
}

-- The parser that `mng_request_index_init` sets up.
abbrev pub index_parser : Parser
index_parser = parser_of 1 (byte_substate (some check_index) ∷ [])

-- The parser once it has read the byte.
abbrev pub chosen : ℕ → Parser
chosen b = record index_parser {
  index = 1;
  current = done_read;
  states =
      record (byte_substate (some check_index)) { remaining = 0; result = some (b ∷ 0 ∷ []) } ∷ [];
}

chosen_byte :
    (b : ℕ) (i : Index) → index_of b ≡ some i → consume_byte index_parser b ≡ some (chosen b, true)
unfolding consume_byte feed dispatch feed_long finish_long set_byte check_index advance is_done
chosen_byte b i e = rw e refl

parsed_chosen :
    (g : Globals) (k : Key) (d : MngSt) (b : ℕ) (i : Index)
    → index_of b ≡ some i
    → index_parsed g k (record d { parser = chosen b }) done_read ≡ (do
      (ret, wb) ← process_index g k.conn.write_buffer (some i)
      index_next (with_write_buffer k wb) (record d { parser = chosen b; index = some i }) ret)
unfolding index_parsed is_done pointed
parsed_chosen g k d b i e = rw e refl

ready_success :
    (g : Globals) (k : Key) (d : MngSt) (incoming : Incoming)
    → d.status ≡ succeeded
    → index_read g k d incoming ≡ index_ready g k d incoming
unfolding index_read
ready_success g k d incoming h = rw h

-- The byte of an index that there is, with what else has come behind it: only the byte is taken, the
-- read buffer has all its room again, and `process_mng_index` says how it goes on.
pub index_read_lem :
    (g : Globals) (k : Key) (d : MngSt) (b : ℕ) (i : Index) (behind : List ℕ)
    → Waits k d index_parser
    → 1 ≤ space k.conn.read_buffer
    → index_of b ≡ some i
    → index_read g k d (offered (b ∷ behind)) ≡ (do
      (ret, wb) ← process_index g k.conn.write_buffer (some i)
      index_next
          (with_write_buffer (with_read_buffer k (reset (filled k.conn.read_buffer (b ∷ [])))) wb)
          (record d { parser = chosen b; index = some i })
          ret)
unfolding index_ready one_byte write_ptr
index_read_lem g k d b i behind w room e =
    let rb : Buffer = filled k.conn.read_buffer (b ∷ []) in
    let c =
      consume_one rb d.parser (chosen b) (byte_substate (some check_index)) b
        (filled-IsValid _ _ w.reading room)
        (contents-filled _ _ w.reading room ∙ ap (λ l. l ++ (b ∷ [])) w.drained)
        (ap (λ q. get_elem? q.states 0) w.fresh) (rw w.fresh (chosen_byte b i e)) in
    ready_success g k d (offered (b ∷ behind)) w.ready
    ∙ (let open' : leb k.conn.read_buffer.write k.conn.read_buffer.limit ≡ true =
          ground (arith, w.reading.write_le) in
        let some_room : (space k.conn.read_buffer == 0) ≡ false = ground (arith, room) in
        rw (
          open',
          some_room,
          receive_lem k.conn.read_buffer b [] w.reading room,
          c,
          parsed_chosen g (with_read_buffer k (reset rb)) d b i e,
        ))
