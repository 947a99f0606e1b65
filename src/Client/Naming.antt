-- ===== src/Client/Naming.antt =====
-- The client of src/client/clientUtils.c and src/Etapas/mng_request.c on a request for the users: what the
-- client lists are the names of the table.
use proyecto_protos.Buffer.{Buffer, contents, space, reset}
use proyecto_protos.Buffer.Valid.{filled}
use proyecto_protos.Client.{Typed, send_request}
use proyecto_protos.Client.Requests.{send_plain}
use proyecto_protos.Client.Reply.{
  Outcome, users, strncpy, users_from, list_users, append_stats, show_reply, received,
  request_response,
}
use proyecto_protos.Connection.{Key, with_read_buffer, with_write_buffer, set_interest_key}
use proyecto_protos.Globals.{Globals}
use proyecto_protos.Mng.{MngSt, index_of}
use proyecto_protos.Mng
use proyecto_protos.Mng.Chosen.{index_parser, chosen, index_read_lem}
use proyecto_protos.Mng.Listing.{total, list_users_fits, length-rows}
use proyecto_protos.Mng.Marshal.{rows}
use proyecto_protos.Mng.Read.{process_index, index_next, index_read}
use proyecto_protos.Mng.Stage.{Waits}
use proyecto_protos.MngState
use proyecto_protos.Selector.{Selector, op_write, set_interest}
use proyecto_protos.Selector
use proyecto_protos.Socket.{offered}
use proyecto_protos.Users.{User}
use proyecto_protos.Users.Table.{Holds, get_elem?-append_self}
use proyecto_protos.Users.Lookup.{until_zero}
use proyecto_protos.Prelude.{
  ℕ, zero, suc, ◌+◌, ◌%◌, ◌≤◌, ◌<◌, ◌≡◌, refl, ◌∙◌, sym, ap, false, true, none, some, List, [], ◌∷◌,
  ◌++◌, append_assoc, length, length-append, get_elem?, drop, take, take_all, pos, arith,
}

-- The names, each up to its first zero byte.
abbrev pub names : List User → List (List ℕ)
names [] = []
names (u ∷ us) = until_zero u.name ∷ names us

-- Every name has a length that fits in a byte.
abbrev pub Short : List User → Type 0
Short [] = Unit {0}
Short (u ∷ us) = (length u.name < 256) × Short us

strncpy_at :
    (s pre rest : List ℕ) (i : ℕ)
    → i ≡ length pre
    → strncpy (pre ++ (s ++ rest)) i (length s) ≡ some (until_zero s)
unfolding strncpy
strncpy_at [] pre rest i e = refl
strncpy_at (zero ∷ cs) pre rest i e = rw (e, get_elem?-append_self pre (cs ++ rest) 0) refl
strncpy_at (suc c ∷ cs) pre rest i e =
    let more : strncpy (pre ++ (suc c ∷ (cs ++ rest))) (suc i) (length cs) ≡ some (until_zero cs) =
      rw (← append_assoc pre (suc c ∷ []) (cs ++ rest)) (
        strncpy_at cs (pre ++ (suc c ∷ [])) rest (suc i)
          (omega (arith, e, length-append pre (suc c ∷ [])))) in
    let here : get_elem? (pre ++ (suc c ∷ (cs ++ rest))) i ≡ some (suc c) =
      rw (e, get_elem?-append_self pre (cs ++ rest) (suc c)) refl in
    rw (here, more) (ground arith)

-- The loop over the rows that the server writes.
users_from_at :
    (us : List User) (pre rest : List ℕ) (i : ℕ)
    → i ≡ length pre
    → Short us
    → users_from (pre ++ (rows us ++ rest)) i (length us) ≡ some (names us)
unfolding users_from rows
users_from_at [] pre rest i e h = refl
users_from_at (u ∷ us) pre rest i e h =
    let n : length u.name % 256 ≡ length u.name = omega (arith, h.0) in
    let v : ℕ = length u.name in
    let tail : List ℕ = (u.name ++ rows us) ++ rest in
    let here : get_elem? (pre ++ (v ∷ tail)) i ≡ some v =
      rw (e, get_elem?-append_self pre tail v) refl in
    let split : tail ≡ u.name ++ (rows us ++ rest) = append_assoc u.name (rows us) rest in
    let name : strncpy (pre ++ (v ∷ tail)) (suc i) v ≡ some (until_zero u.name) =
      rw (split, ← append_assoc pre (v ∷ []) (u.name ++ (rows us ++ rest)))
        (strncpy_at u.name (pre ++ (v ∷ [])) (rows us ++ rest) (suc i)
          (omega (arith, e, length-append pre (v ∷ [])))) in
    let more : users_from (pre ++ (v ∷ tail)) (suc i + v) (length us) ≡ some (names us) =
      ap (λ l. users_from (pre ++ (v ∷ l)) (suc i + v) (length us)) split
      ∙ ap (λ l. users_from l (suc i + v) (length us))
          (sym (append_assoc pre (v ∷ u.name) (rows us ++ rest)))
      ∙ users_from_at us (pre ++ (v ∷ u.name)) rest (suc i + v)
          (omega (arith, e, length-append pre (v ∷ u.name))) h.1 in
    let row : rows (u ∷ us) ≡ v ∷ (u.name ++ rows us) = ap (λ l. l ∷ (u.name ++ rows us)) n in
    ap (λ l. users_from (pre ++ (l ++ rest)) i (suc (length us))) row ∙ (rw (here, name, more) refl)

-- What the client shows of the list.
abbrev pub listed : List User → Outcome
listed us = record { shown = users (names us); success = true; appended = none }

listed_lem :
    (array : List ℕ) (us : List User)
    → Short us
    → 2 + length (rows us) ≤ 500
    → request_response array (offered (0x00 ∷ length us ∷ rows us)) (pos 1) false ≡ some (listed us)
unfolding request_response received show_reply append_stats list_users
listed_lem array us h fits =
    let reply : List ℕ = 0x00 ∷ length us ∷ rows us in
    let whole : take 498 (rows us) ≡ rows us = take_all 498 (rows us) (omega arith) in
    rw
      (
        whole,
        users_from_at us (0x00 ∷ length us ∷ []) (drop (length (take 500 reply)) array) 2 refl h,
      )
      refl

names_taken :
    (g : Globals) (k : Key) (d : MngSt) (us : List User) {s : Selector}
    → Waits k d index_parser
    → Holds g.users us
    → 1 ≤ space k.conn.read_buffer
    → 2 + total us + length us ≤ space k.conn.write_buffer
    → space k.conn.write_buffer < 18446744073709551616
    → set_interest k.selector k.fd op_write ≡ some (Selector.Status.success, s)
    → (d' : MngSt) × (k' : Key) × (index_read g k d (offered (0x01 ∷ []))
        ≡ some (MngState.request_write, d', k'))
      × (contents k'.conn.write_buffer
          ≡ contents k.conn.write_buffer ++ (0x00 ∷ length us ∷ rows us))
unfolding index_next set_interest_key process_index index_of
names_taken g k d us {s} w holds room fits big sel =
    let (wb, e, c, v) = list_users_fits k.conn.write_buffer g.users us w.writing holds fits big in
    let rb : Buffer = reset (filled k.conn.read_buffer (0x01 ∷ [])) in
    (
      record d { parser = chosen 0x01; index = some Mng.Index.list_users },
      record (with_write_buffer (with_read_buffer k rb) wb) { selector = s },
      index_read_lem g k d 0x01 Mng.Index.list_users [] w room refl ∙ (rw (e, sel) refl),
      c,
    )

-- The user of the client asks for the users, with no file to append to, and the server waits for an
-- index, with nothing left to send. If the list fits the write buffer of the server and the 500 bytes of
-- the client, the server's handler replies to the byte that the client sends, and the client shows the
-- names of the table in their order.
pub client_lists_users :
    (buffer array : List ℕ) (typed : Typed) (g : Globals) (k : Key) (d : MngSt) (us : List User)
    {s : Selector}
    → length buffer ≡ 512
    → typed.number ≡ some (pos 1)
    → Waits k d index_parser
    → contents k.conn.write_buffer ≡ []
    → Holds g.users us
    → Short us
    → 1 ≤ space k.conn.read_buffer
    → 2 + total us + length us ≤ space k.conn.write_buffer
    → space k.conn.write_buffer < 18446744073709551616
    → 2 + total us + length us ≤ 500
    → set_interest k.selector k.fd op_write ≡ some (Selector.Status.success, s)
    → (d' : MngSt) × (k' : Key) × (send_request buffer typed ≡ some (pos 1, some (0x01 ∷ [])))
      × (index_read g k d (offered (0x01 ∷ [])) ≡ some (MngState.request_write, d', k'))
      × (request_response array (offered (contents k'.conn.write_buffer)) (pos 1) false
          ≡ some (listed us))
client_lists_users buffer array typed g k d us l e w drained holds short room fits big small sel =
    let (d', k', r, wrote) = names_taken g k d us w holds room fits big sel in
    let sent : contents k'.conn.write_buffer ≡ 0x00 ∷ length us ∷ rows us =
      wrote ∙ ap (λ q. q ++ (0x00 ∷ length us ∷ rows us)) drained in
    (
      d',
      k',
      send_plain buffer typed 1 l e (omega arith),
      r,
      ap (λ q. request_response array (offered q) (pos 1) false) sent
          ∙ listed_lem array us short (omega (arith, length-rows us)),
    )
