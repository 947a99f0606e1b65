-- ===== src/Netutils/Shown.antt =====
-- What `sockaddr_to_human` of src/netutils.c leaves in its array.
use proyecto_protos.Bytes.{set_byte}
use proyecto_protos.Client.Arrays.{strcpy_at, strcpy-none, length-drop}
use proyecto_protos.Netutils.Human.{
  Sockaddr, strncat, snprintf, cut_short, address_text, port_text, sockaddr_to_human,
}
use proyecto_protos.Request.{Family}
use proyecto_protos.Resolver.{digits, port_of}
use proyecto_protos.Users.{cstr}
use proyecto_protos.Prelude.{
  ℕ, zero, suc, ◌+◌, ◌/◌, ◌%◌, ◌-◌, ◌≤◌, ◌<◌, ◌≡◌, refl, ◌∙◌, sym, ap, ◌⊎◌, inl, inr, Bool-cases,
  Option, none, some, List, [], ◌∷◌, ◌++◌, append_assoc, length-append, length-set, length-take_le,
  length, take, drop, set, ltb, ◌>>=◌, arith,
}

-- The bytes have no terminator among them.
pub data IsText : List ℕ → Type 0 where
  nothing : IsText []
  byte : {b : ℕ} {bs : List ℕ} → 1 ≤ b → IsText bs → IsText (b ∷ bs)

-- The text that stands in an array is what comes before the first terminator.
cstr_front : (bs rest : List ℕ) → IsText bs → cstr (bs ++ (0 ∷ rest)) ≡ some bs
unfolding cstr
cstr_front [] rest nothing = refl
cstr_front (zero ∷ bs) rest (byte h t) = absurd (omega (arith, h))
cstr_front (suc b ∷ bs) rest (byte h t) = rw (cstr_front bs rest t) refl

append-IsText : {xs ys : List ℕ} → IsText xs → IsText ys → IsText (xs ++ ys)
append-IsText nothing u = u
append-IsText (byte h t) u = byte h (append-IsText t u)

take-IsText : (n : ℕ) {xs : List ℕ} → IsText xs → IsText (take n xs)
take-IsText zero t = nothing
take-IsText (suc n) nothing = nothing
take-IsText (suc n) (byte h t) = byte h (take-IsText n t)

digits-IsText : (fuel n : ℕ) {after : List ℕ} → IsText after → IsText (digits fuel n after)
unfolding digits
digits-IsText zero n t = t
digits-IsText (suc fuel) n {after} t =
    let more : IsText (digits fuel (n / 10) ((48 + n % 10) ∷ after)) =
      digits-IsText fuel (n / 10) (byte (omega arith) t) in
    elim (Bool-cases (ltb n 10)) [
      | inl low ↦ rw low (byte (omega arith) t)
      | inr high ↦ rw high more
    ]

-- A zero at the end of the array, or behind a text in it, leaves the text.
cut_lem :
    (front rest : List ℕ) (m : ℕ)
    → length front ≤ m
    → (q : List ℕ) × (set (front ++ (0 ∷ rest)) m 0 ≡ front ++ (0 ∷ q)) × (length q ≡ length rest)
cut_lem [] rest zero h = (rest, refl, refl)
cut_lem [] rest (suc m) h = (set rest m 0, refl, length-set rest m 0)
cut_lem (x ∷ front) rest zero h = absurd (omega (arith, h))
cut_lem (x ∷ front) rest (suc m) h =
    let (q, e, l) = cut_lem front rest m (omega (arith, h)) in (q, ap (λ k. x ∷ k) e, l)

cut_short_lem :
    (front rest : List ℕ) (m : ℕ)
    → length front ≤ m
    → m ≤ length front + length rest
    → (q : List ℕ) × (cut_short (front ++ (0 ∷ rest)) (suc m) ≡ some (front ++ (0 ∷ q)))
      × (length q ≡ length rest)
unfolding cut_short set_byte
cut_short_lem front rest m low high =
    let (q, e, l) = cut_lem front rest m low in
    (q, rw e (ground (arith, low, high, length-append front (0 ∷ rest))), l)

take_behind :
    (front xs : List ℕ) (n : ℕ)
    → length front ≤ n
    → take n (front ++ xs) ≡ front ++ take (n - length front) xs
take_behind [] xs n h = ap (λ k. take k xs) (omega arith)
take_behind (x ∷ front) xs zero h = absurd (omega (arith, h))
take_behind (x ∷ front) xs (suc n) h =
    ap (λ l. x ∷ l)
      (take_behind front xs n (omega (arith, h)) ∙ ap (λ k. front ++ take k xs) (omega arith))

take_nil : (n : ℕ) → take {A = ℕ} n [] ≡ []
take_nil zero = refl
take_nil (suc n) = refl

-- The colon behind the text of the address.
colon_lem :
    (t d : List ℕ) (n : ℕ)
    → IsText t
    → 1 ≤ length d
    → strncat (t ++ (0 ∷ d)) (58 ∷ []) (suc n) ≡ some ((t ++ (58 ∷ [])) ++ (0 ∷ drop 1 d))
unfolding strncat
colon_lem t d n text h =
    rw (cstr_front t d text, take_nil n)
      (strcpy_at (58 ∷ []) t (0 ∷ d) (length t) refl (omega (arith, h))
        ∙ ap some (sym (append_assoc t (58 ∷ []) (0 ∷ drop 1 d))))

-- The digits behind it, as many as there is room for.
digits_lem :
    (p rest ds : List ℕ) (m : ℕ)
    → length p ≤ m
    → m ≤ length p + length rest
    → snprintf (p ++ (0 ∷ rest)) (length p) (suc m - length p) ds
      ≡ some (
          p
          ++ (take (m - length p) ds
              ++ (0 ∷ drop (suc (length (take (m - length p) ds))) (0 ∷ rest))))
unfolding snprintf
digits_lem p rest ds m low high =
    let one : suc m - length p ≡ suc (m - length p) = omega (arith, low) in
    rw one (
      strcpy_at (take (m - length p) ds) p (0 ∷ rest) (length p) refl
        (omega (arith, low, high, length-take_le (m - length p) ds)))

-- What is done from the colon on, to an array in which a text stands.
abbrev tail : List ℕ → ℕ → Sockaddr → Option (List ℕ)
tail b2 size a = do
  b3 ← cut_short b2 size
  s ← cstr b3
  b4 ← port_text b3 (length s) size a
  cut_short b4 size

tail_lem :
    (a : Sockaddr) (f : Family) (p rest : List ℕ) (m port : ℕ)
    → a.family ≡ some f
    → port_of a.port ≡ some port
    → IsText p
    → length p ≤ m
    → m ≡ length p + length rest
    → (b : List ℕ) × (tail (p ++ (0 ∷ rest)) (suc m) a ≡ some b)
      × (cstr b ≡ some (take m (p ++ digits 5 port [])))
unfolding port_text
tail_lem a f p rest m port af ap_ text low whole =
    let ds : List ℕ = digits 5 port [] in
    let some_of : List ℕ = take (m - length p) ds in
    let (q, cut, same) = cut_short_lem p rest m low (omega (arith, whole)) in
    let r : List ℕ = drop (suc (length some_of)) (0 ∷ q) in
    let put = digits_lem p q ds m low (omega (arith, whole, same)) in
    let (q', cut', same') =
      cut_short_lem (p ++ some_of) r m
        (omega (arith, length-append p some_of, length-take_le (m - length p) ds, low))
        (omega (
          arith,
          length-append p some_of,
          whole,
          same,
          length-drop (suc (length some_of)) (0 ∷ q)
              (omega (arith, whole, same, length-take_le (m - length p) ds)),
        )) in
    (
      (p ++ some_of) ++ (0 ∷ q'),
      rw (cut, cstr_front p q text, af, ap_, put, ← append_assoc p some_of (0 ∷ r), cut') refl,
      cstr_front (p ++ some_of) q'
            (append-IsText text (take-IsText (m - length p) (digits-IsText 5 port nothing)))
          ∙ ap some (sym (take_behind p ds m low)),
    )

-- From the text of the address on, where there is room for the colon.
room_lem :
    (a : Sockaddr) (f : Family) (t d : List ℕ) (n port : ℕ)
    → a.family ≡ some f
    → port_of a.port ≡ some port
    → IsText t
    → 1 ≤ length d
    → length t + length d ≡ n
    → (b : List ℕ) × ((strncat (t ++ (0 ∷ d)) (58 ∷ []) (suc n) >>= λ b2. tail b2 (suc n) a)
        ≡ some b)
      × (cstr b ≡ some (take n (t ++ (58 ∷ digits 5 port []))))
room_lem a f t d n port af ap_ text some_left whole =
    let (b, e, c) =
      tail_lem a f (t ++ (58 ∷ [])) (drop 1 d) n port af ap_
        (append-IsText text (byte (omega arith) nothing))
        (omega (arith, some_left, whole, length-append t (58 ∷ [])))
        (omega (arith, whole, length-append t (58 ∷ []), length-drop 1 d some_left)) in
    (
      b,
      rw (colon_lem t d n text some_left) e,
      c ∙ ap (λ l. some (take n l)) (append_assoc t (58 ∷ []) (digits 5 port [])),
    )

-- Where there is none, the colon takes the place of the terminator, and there is no place for another.
over_lem :
    (t d : List ℕ) (n : ℕ)
    → IsText t
    → length d ≡ 0
    → strncat (t ++ (0 ∷ d)) (58 ∷ []) (suc n) ≡ none
unfolding strncat
over_lem t d n text h = rw (cstr_front t d text) (
    strcpy-none (58 ∷ take n []) (t ++ (0 ∷ d)) (length t)
      (omega (arith, h, length-append t (0 ∷ d))))

named_lem :
    (inet_ntop : Family → List ℕ → ℕ → Option (List ℕ)) (a : Sockaddr) (f : Family)
    (t array : List ℕ) (size : ℕ)
    → a.family ≡ some f
    → inet_ntop f a.address size ≡ some t
    → length t < length array
    → address_text inet_ntop array size a ≡ some (t ++ (0 ∷ drop (suc (length t)) array))
unfolding address_text
named_lem inet_ntop a f t array size af written fits =
    ground (arith, af, written, strcpy_at t [] array 0 refl fits)

-- In an array of the size that it is given, `sockaddr_to_human` of an address that `inet_ntop` can write
-- there leaves the text of the address, a colon and the port in decimal, cut to one byte less than the
-- size, where at least a byte is left behind the text of the address and its terminator. Where none is
-- left, `strncat` writes behind the array.
pub human_lem :
    (inet_ntop : Family → List ℕ → ℕ → Option (List ℕ)) (a : Sockaddr) (f : Family)
    (t array : List ℕ) (size port : ℕ)
    → a.family ≡ some f
    → port_of a.port ≡ some port
    → inet_ntop f a.address size ≡ some t
    → IsText t
    → length t < size
    → length array ≡ size
    → (suc (length t) < size)
        × ((b : List ℕ) × (sockaddr_to_human inet_ntop array size (some a) ≡ some b)
            × (cstr b ≡ some (take (size - 1) (t ++ (58 ∷ digits 5 port [])))))
      ⊎ (suc (length t) ≡ size) × (sockaddr_to_human inet_ntop array size (some a) ≡ none)
unfolding sockaddr_to_human
human_lem inet_ntop a f t array zero port af ap_ written text fits whole =
    absurd (omega (arith, fits))
human_lem inet_ntop a f t array (suc n) port af ap_ written text fits whole =
    let d : List ℕ = drop (suc (length t)) array in
    let named = named_lem inet_ntop a f t array (suc n) af written (omega (arith, fits, whole)) in
    let left : suc (length t) + length d ≡ suc n =
      length-drop (suc (length t)) array (omega (arith, fits, whole)) ∙ whole in
    elim (Bool-cases (ltb (suc (length t)) (suc n))) [
      | inl room ↦
          (let (b, e, c) =
              room_lem a f t d n port af ap_ text (ground (arith, room, left))
                (omega (arith, left)) in
            inl (
              ground (arith, room),
              (
                b,
                rw named e,
                c ∙ ap (λ k. some (take k (t ++ (58 ∷ digits 5 port [])))) (omega arith),
              ),
            ))
      | inr full ↦ inr (
        ground (arith, full, fits),
        rw (named, over_lem t d n text (ground (arith, full, left))) refl,
      )
    ]
