-- ===== src/Dissector/Safety.antt =====
-- src/password_dissector/dissec_parser.c never faults, and its strings stay short.
use proyecto_protos.Dissector.{
  State, user_word_search, user_read, pass_word_search, pass_read, Dissector, user_word, pass_word,
  init, restart, user_read_reset, pass_read_reset, is_ascii, user_read_handler, pass_read_handler,
  pass_word_search_handler, user_word_search_handler, dispatch, feed, consume,
}
use proyecto_protos.Dissector.Strings.{Room, Text, cstr-set, store_char_lem}
use proyecto_protos.Prelude.{
  ℕ, ◌+◌, ◌≤◌, ◌<◌, ◌≡◌, refl, ◌⊎◌, inl, inr, true, false, Bool-cases, not, ◌&&◌, Option, none,
  some, List, [], ◌∷◌, set, get_elem?_total, leb, ◌==◌, if◌then◌else◌, arith,
}

-- What holds between two bytes.
abbrev pub Inv : State → ℕ → Option (List ℕ) → Option (List ℕ) → Type 0
Inv user_word_search i u p = i < 5
Inv user_read i u p = (i ≤ 255) × Room i u
Inv pass_word_search i u p = (i < 10) × Text u
Inv pass_read i u p = (i ≤ 255) × Text u × Room i p

abbrev pub IsSafe : Dissector → Type 0
IsSafe d = Inv d.current d.current_index d.username d.password

restart-IsSafe : (d : Dissector) (b : ℕ) → IsSafe (restart d b)
unfolding restart
restart-IsSafe d b = ground arith

user_word_lem :
    (d : Dissector) (b : ℕ)
    → d.current_index < 5
    → (d' : Dissector) × (user_word_search_handler d b ≡ some d') × IsSafe d'
unfolding user_word_search_handler
user_word_lem d b h =
    let (c, e) = get_elem?_total user_word d.current_index (omega arith) in
    elim (Bool-cases (c == b)) [
      | inl y ↦ elim (Bool-cases (d.current_index + 1 == 5)) [
        | inl z ↦ (
          record d { current_index = 0; current = user_read },
          rw (e, y, z),
          (omega arith, inl refl),
        )
        | inr nz ↦ (
          record d { current_index = d.current_index + 1; current = user_word_search },
          rw (e, y, nz),
          ground (arith, h, nz),
        )
      ]
      | inr n ↦ (
        record d { current_index = if 0x75 == b then 1 else 0; current = user_word_search },
        rw (e, n),
        ground arith,
      )
    ]

pass_word_lem :
    (d : Dissector) (b : ℕ)
    → d.current_index < 10
    → Text d.username
    → (d' : Dissector) × (pass_word_search_handler d b ≡ some d') × IsSafe d'
unfolding pass_word_search_handler
pass_word_lem d b h (u, s, t, q) =
    let (c, e) = get_elem?_total pass_word d.current_index (omega arith) in
    elim (Bool-cases (c == b)) [
      | inl y ↦ elim (Bool-cases (d.current_index + 1 == 10)) [
        | inl z ↦ (
          record d { current_index = 0; current = pass_read },
          rw (e, y, z),
          (omega arith, (u, s, t, q), inl refl),
        )
        | inr nz ↦ (
          record d { current_index = d.current_index + 1; current = pass_word_search },
          rw (e, y, nz),
          (ground (arith, h, nz), (u, s, t, q)),
        )
      ]
      | inr n ↦ (
        restart (record d { username = none }) b,
        rw (e, n, t),
        restart-IsSafe (record d { username = none }) b,
      )
    ]

user_read_lem :
    (d : Dissector) (b : ℕ)
    → d.current_index ≤ 255
    → Room d.current_index d.username
    → (d' : Dissector) × (user_read_handler d b ≡ some d') × IsSafe d'
unfolding user_read_handler user_read_reset
user_read_lem d b h room =
    let back : IsSafe (restart d b) = restart-IsSafe d b in
    elim (Bool-cases (leb 255 d.current_index)) [
      | inl full ↦ (restart d b, rw full, back)
      | inr short ↦ elim (Bool-cases (d.last && not (b == 0x0A))) [
        | inl bad ↦ (restart d b, rw (short, bad), back)
        | inr good ↦ elim (Bool-cases (b == 0x0D)) [
          | inl cr ↦
              (record d { last = true; current = user_read }, rw (short, good, cr), (h, room))
          | inr no_cr ↦ elim (Bool-cases (b == 0x0A)) [
            | inl lf ↦
                (let (a, e, inside, _) = store_char_lem d.username d.current_index 0 room in
                  let (s, q) = cstr-set a d.current_index inside in
                  (
                    record d {
                      username = some (set a d.current_index 0);
                      current_index = 0;
                      last = false;
                      current = pass_word_search;
                    },
                    rw (short, good, no_cr, lf, e),
                    (omega arith, (set a d.current_index 0, s, refl, q)),
                  ))
            | inr no_lf ↦ elim (Bool-cases (is_ascii b)) [
              | inl ascii ↦
                  (let (a, e, inside, grown) = store_char_lem d.username d.current_index b room in
                    (
                      record d {
                        username = some (set a d.current_index b);
                        current_index = d.current_index + 1;
                        current = user_read;
                      },
                      rw (short, good, no_cr, no_lf, ascii, e),
                      (ground (arith, short), inr grown),
                    ))
              | inr other ↦ (restart d b, rw (short, good, no_cr, no_lf, other), back)
            ]
          ]
        ]
      ]
    ]

-- What `pass_read_reset` needs of the password.
abbrev Freeable : ℕ → Option (List ℕ) → Type 0
Freeable i buffer = (i ≡ 0) ⊎ ((array : List ℕ) × (buffer ≡ some array))

can_free : (i : ℕ) (buffer : Option (List ℕ)) → Room i buffer → Freeable i buffer
can_free i buffer (inl e) = inl e
can_free i buffer (inr g) = inr (g.array, g.set_up)

-- The pointers that `pass_read_reset` frees have been set.
pass_reset_lem :
    (d : Dissector) (b : ℕ)
    → Text d.username
    → Freeable d.current_index d.password
    → (d' : Dissector) × (pass_read_reset d b ≡ some d') × IsSafe d'
unfolding pass_read_reset
pass_reset_lem d b (u, s, t, q) room = elim (Bool-cases (d.current_index == 0)) [
  | inl z ↦ (
    restart (record d { username = none }) b,
    rw (z, t),
    restart-IsSafe (record d { username = none }) b,
  )
  | inr nz ↦ elim room [
    | inl e ↦ absurd (ground (arith, nz, e))
    | inr (a, p) ↦ (
      restart (record d { username = none; password = none }) b,
      rw (nz, p, t),
      restart-IsSafe (record d { username = none; password = none }) b,
    )
  ]
]

pass_read_lem :
    (name : List ℕ) (d : Dissector) (b : ℕ)
    → d.current_index ≤ 255
    → Text d.username
    → Room d.current_index d.password
    → (d' : Dissector) × (pass_read_handler (some name) d b ≡ some d') × IsSafe d'
unfolding pass_read_handler user_read_reset
pass_read_lem name d b h text room =
    let (dr, er, safe) = pass_reset_lem d b text (can_free d.current_index d.password room) in
    elim (Bool-cases (leb 255 d.current_index)) [
      | inl full ↦ (dr, rw full er, safe)
      | inr short ↦ elim (Bool-cases (d.last && not (b == 0x0A))) [
        | inl bad ↦ (dr, rw (short, bad) er, safe)
        | inr good ↦ elim (Bool-cases (b == 0x0D)) [
          | inl cr ↦
              (record d { last = true; current = pass_read }, rw (short, good, cr), (h, text, room))
          | inr no_cr ↦ elim (Bool-cases (b == 0x0A)) [
            | inl lf ↦
                (let (a, e, inside, _) = store_char_lem d.password d.current_index 0 room in
                  let (s, q) = cstr-set a d.current_index inside in
                  let (u, us, t, v) = text in
                  let (d', e', safe') =
                    pass_reset_lem
                      (record d {
                        username = some u;
                        password = some (set a d.current_index 0);
                        printed = (name, us, s) ∷ d.printed;
                      })
                      b (u, us, refl, v) (inr (set a d.current_index 0, refl)) in
                  (d', rw (short, good, no_cr, lf, e, t, v, q) e', safe'))
            | inr no_lf ↦ elim (Bool-cases (is_ascii b)) [
              | inl ascii ↦
                  (let (a, e, inside, grown) = store_char_lem d.password d.current_index b room in
                    (
                      record d {
                        password = some (set a d.current_index b);
                        current_index = d.current_index + 1;
                        current = pass_read;
                      },
                      rw (short, good, no_cr, no_lf, ascii, e),
                      (ground (arith, short), text, inr grown),
                    ))
              | inr other ↦ (restart d b, rw (short, good, no_cr, no_lf, other), restart-IsSafe d b)
            ]
          ]
        ]
      ]
    ]

dispatch-IsSafe :
    (name : List ℕ) (s : State) (d : Dissector) (b : ℕ)
    → Inv s d.current_index d.username d.password
    → (d' : Dissector) × (dispatch (some name) s d b ≡ some d') × IsSafe d'
unfolding dispatch
dispatch-IsSafe name user_word_search d b i = user_word_lem d b i
dispatch-IsSafe name user_read d b (h, room) = user_read_lem d b h room
dispatch-IsSafe name pass_word_search d b (h, text) = pass_word_lem d b h text
dispatch-IsSafe name pass_read d b (h, text, room) = pass_read_lem name d b h text room

-- Each byte, in a state in which the invariant holds, is taken without a fault, and it holds again.
feed-IsSafe :
    (name : List ℕ) (d : Dissector) (b : ℕ)
    → IsSafe d
    → (d' : Dissector) × (feed (some name) d b ≡ some d') × IsSafe d'
unfolding feed
feed-IsSafe name d b safe = dispatch-IsSafe name d.current d b safe

pub consume-IsSafe :
    (name bytes : List ℕ) (d : Dissector)
    → IsSafe d
    → (d' : Dissector) × (consume (some name) bytes d ≡ some d') × IsSafe d'
unfolding consume
consume-IsSafe name [] d safe = (d, refl, safe)
consume-IsSafe name (b ∷ bytes) d safe =
    let (d1, e1, safe1) = feed-IsSafe name d b safe in
    let (d2, e2, safe2) = consume-IsSafe name bytes d1 safe1 in (d2, rw (e1, e2), safe2)

init-IsSafe : (d : Dissector) → IsSafe (init d)
unfolding init
init-IsSafe d = omega arith

-- From its start, on any bytes, while the entry of the connection's user has a name, the automaton makes
-- no access outside an array, frees and uses only pointers that are set, prints only strings that end,
-- and counts no string beyond 255.
pub consume_total :
    (name : List ℕ) (d : Dissector) (bytes : List ℕ)
    → (d' : Dissector) × (consume (some name) bytes (init d) ≡ some d') × IsSafe d'
consume_total name d bytes = consume-IsSafe name bytes (init d) (init-IsSafe d)
