-- ===== src/Client/Encode.antt =====
-- The messages that src/client/clientUtils.c builds are those that the server parses.
use proyecto_protos.Auth.Message as AuthMessage
use proyecto_protos.Bytes.{set_byte}
use proyecto_protos.Client.{ClientUser, strcpy, send_credentials}
use proyecto_protos.Client.Arrays.{set_at, strcpy_at, strcpy_behind, strcpy-none, length-drop}
use proyecto_protos.Mng.Message.{encode_add}
use proyecto_protos.Prelude.{
  ℕ, suc, ◌+◌, ◌%◌, ◌≤◌, ◌<◌, ◌≡◌, refl, ◌∙◌, sym, ap, inl, inr, Bool-cases, Option, List, [], ◌∷◌,
  ◌++◌, append_assoc, none, some, length, length-append, take, take-append_self, drop, ltb,
  if◌then◌else◌, ◌>>=◌, arith,
}

-- Two strings, each behind its length, written into an array behind its first byte.
abbrev two_strings : List ℕ → List ℕ → List ℕ → Option (List ℕ)
two_strings buffer name pass = do
  b2 ← set_byte buffer 1 (length name % 256)
  b3 ← strcpy b2 2 name
  b4 ← set_byte b3 (2 + length name) (length pass % 256)
  b5 ← strcpy b4 (3 + length name) pass
  some (take (length name + length pass + 3) b5)

pub take_front : (xs ys : List ℕ) (k : ℕ) → k ≡ length xs → take k (xs ++ ys) ≡ xs
take_front xs ys k e = ap (λ n. take n (xs ++ ys)) e ∙ take-append_self xs ys

-- What is sent of an array that begins with the message.
pub message_part :
    (v : ℕ) (name pass behind : List ℕ)
    → take
        (length name + length pass + 3)
        (v ∷ length name ∷ (name ++ (length pass ∷ (pass ++ behind))))
      ≡ v ∷ encode_add name pass
message_part v name pass behind =
    ap (λ l. take (length name + length pass + 3) (v ∷ length name ∷ l))
      (sym (append_assoc name (length pass ∷ pass) behind))
    ∙ take_front (v ∷ encode_add name pass) behind (length name + length pass + 3)
        (omega (arith, length-append name (length pass ∷ pass)))

two_strings_fit :
    (v y : ℕ) (old name pass : List ℕ)
    → length name < 256
    → length pass < 256
    → length name + length pass + 1 < length old
    → two_strings (v ∷ y ∷ old) name pass ≡ some (v ∷ encode_add name pass)
two_strings_fit v y old name pass h k l =
    let n : length name % 256 ≡ length name = omega arith in
    let p : length pass % 256 ≡ length pass = omega arith in
    let r : List ℕ = drop (suc (length name)) old in
    let m : suc (length name) + length r ≡ length old =
      length-drop (suc (length name)) old (omega arith) in
    let front : List ℕ = v ∷ length name ∷ name in
    rw
      (
        n,
        set_at (v ∷ []) old y (length name) 1 refl,
        strcpy_at name (v ∷ length name ∷ []) old 2 refl (omega arith),
        p,
        set_at front r 0 (length pass) (2 + length name) (omega arith),
        strcpy_behind pass front r (length pass) (3 + length name) (omega arith) (omega (arith, m)),
        message_part v name pass (0 ∷ drop (suc (length pass)) r),
      )
      refl

two_strings-none :
    (v y : ℕ) (old name pass : List ℕ)
    → length name < 256
    → length old ≤ length name + length pass + 1
    → two_strings (v ∷ y ∷ old) name pass ≡ none
two_strings-none v y old name pass h l =
    let n : length name % 256 ≡ length name = omega arith in
    let start : set_byte (v ∷ y ∷ old) 1 (length name) ≡ some (v ∷ length name ∷ old) =
      set_at (v ∷ []) old y (length name) 1 refl in
    elim (Bool-cases (ltb (length name) (length old))) [
      | inl fits ↦
          (let r : List ℕ = drop (suc (length name)) old in
            let front : List ℕ = v ∷ length name ∷ name in
            let m : suc (length name) + length r ≡ length old =
              length-drop (suc (length name)) old (ground (arith, fits)) in
            let q : ℕ = length pass % 256 in
            let first : strcpy (v ∷ length name ∷ old) 2 name ≡ some (front ++ (0 ∷ r)) =
              strcpy_at name (v ∷ length name ∷ []) old 2 refl (ground (arith, fits)) in
            rw
              (
                n,
                start,
                first,
                set_at front r 0 q (2 + length name) (omega arith),
                strcpy-none pass (front ++ (q ∷ r)) (3 + length name)
                    (omega (arith, m, length-append front (q ∷ r))),
              )
              refl)
      | inr past ↦
          rw (n, start, strcpy-none name (v ∷ length name ∷ old) 2 (ground (arith, past))) refl
    ]

-- With a name and a password of at most 255 bytes, `send_credentials` sends the message that the
-- server's parser of credentials reads, if together they have at most 506 bytes. If they have more it
-- writes behind its array.
pub send_credentials_lem :
    (buffer : List ℕ) (user : ClientUser) (name pass : List ℕ)
    → length buffer ≡ 510
    → user.text ≡ some (record { name = name; pass = pass })
    → length name < 256
    → length pass < 256
    → send_credentials buffer user
      ≡ (if ltb (length name + length pass) 507 then some (AuthMessage.encode name pass) else none)
unfolding send_credentials
send_credentials_lem [] user name pass l e h k = absurd (omega arith)
send_credentials_lem (x ∷ []) user name pass l e h k = absurd (omega arith)
send_credentials_lem (x ∷ y ∷ old) user name pass l e h k =
    elim (Bool-cases (ltb (length name + length pass) 507)) [
      | inl fits ↦
          rw (fits, e, set_at [] (y ∷ old) x 1 0 refl)
            (two_strings_fit 1 y old name pass h k (ground (arith, fits)))
      | inr past ↦
          rw (past, e, set_at [] (y ∷ old) x 1 0 refl)
            (two_strings-none 1 y old name pass h (ground (arith, past)))
    ]
