-- ===== src/Client/Requests.antt =====
-- The requests that src/client/clientUtils.c sends are those that the server parses.
use proyecto_protos.Client.Encode.{take_front, message_part}
use proyecto_protos.Client.{scan_word, Typed, add_user, delete_user, fill_request, send_request}
use proyecto_protos.Client.Arrays.{set_at, strcpy_at, strcpy_behind, length-drop}
use proyecto_protos.Mng.Message.{encode_add}
use proyecto_protos.Prelude.{
  ℕ, suc, pos, ◌+◌, ◌%◌, ◌≤◌, ◌<◌, ◌≡◌, refl, List, [], ◌∷◌, ◌++◌, some, length, take, drop, arith,
}

scan_word_lem : (n : ℕ) (w : List ℕ) → length w < n → scan_word n (some w) ≡ some w
unfolding scan_word
scan_word_lem n w h = ground arith

-- The array that `add_user` fills, and what is sent of it.
add_user_array :
    (x y : ℕ) (old name pass : List ℕ)
    → length name < 255
    → length pass < 255
    → length name + length pass + 1 < length old
    → (array : List ℕ) × (add_user (x ∷ y ∷ old) (some name) (some pass)
        ≡ some (array, length name + length pass + 3))
      × (take (length name + length pass + 3) array ≡ x ∷ encode_add name pass)
unfolding add_user
add_user_array x y old name pass h k l =
    let n : length name % 256 ≡ length name = omega arith in
    let p : length pass % 256 ≡ length pass = omega arith in
    let r : List ℕ = drop (suc (length name)) old in
    let m : suc (length name) + length r ≡ length old =
      length-drop (suc (length name)) old (omega arith) in
    let front : List ℕ = x ∷ length name ∷ name in
    let behind : List ℕ = 0 ∷ drop (suc (length pass)) r in
    let steps : add_user (x ∷ y ∷ old) (some name) (some pass)
        ≡ some (front ++ (length pass ∷ (pass ++ behind)), length name + length pass + 3) =
      rw
        (
          scan_word_lem 255 name h,
          scan_word_lem 255 pass k,
          n,
          set_at (x ∷ []) old y (length name) 1 refl,
          strcpy_at name (x ∷ length name ∷ []) old 2 refl (omega arith),
          p,
          set_at front r 0 (length pass) (length name + 2) (omega arith),
          strcpy_behind pass front r (length pass) (length name + 3) (omega arith)
              (omega (arith, m)),
        )
        refl in
    (front ++ (length pass ∷ (pass ++ behind)), steps, message_part x name pass behind)

-- The same for `delete_user`.
delete_user_array :
    (x y : ℕ) (old name : List ℕ)
    → length name < 255
    → length name < length old
    → (array : List ℕ) × (delete_user (x ∷ y ∷ old) (some name) ≡ some (array, length name + 2))
      × (take (length name + 2) array ≡ x ∷ length name ∷ name)
unfolding delete_user
delete_user_array x y old name h l =
    let n : length name % 256 ≡ length name = omega arith in
    let front : List ℕ = x ∷ length name ∷ [] in
    let behind : List ℕ = 0 ∷ drop (suc (length name)) old in
    (
      front ++ (name ++ behind),
      rw
          (
            scan_word_lem 255 name h,
            n,
            set_at (x ∷ []) old y (length name) 1 refl,
            strcpy_at name front old 2 refl l,
          )
          refl,
      take_front (x ∷ length name ∷ name) behind (length name + 2) (omega arith),
    )

-- What is sent of a request to add a user: its index, and the message that the server's parser reads.
pub send_add :
    (buffer : List ℕ) (typed : Typed) (name pass : List ℕ)
    → length buffer ≡ 512
    → typed ≡ record { number = some (pos 10); first = some name; second = some pass }
    → length name < 255
    → length pass < 255
    → send_request buffer typed ≡ some (pos 10, some (0x0A ∷ encode_add name pass))
unfolding send_request fill_request
send_add [] typed name pass l e h k = absurd (omega arith)
send_add (x ∷ []) typed name pass l e h k = absurd (omega arith)
send_add (x ∷ y ∷ old) typed name pass l e h k =
    let (array, filled, sent) = add_user_array 10 y old name pass h k (omega arith) in
    rw (e, set_at [] (y ∷ old) x 10 0 refl, filled, sent) refl

-- And of one to delete a user.
pub send_delete :
    (buffer : List ℕ) (typed : Typed) (name : List ℕ)
    → length buffer ≡ 512
    → typed.number ≡ some (pos 11)
    → typed.first ≡ some name
    → length name < 255
    → send_request buffer typed ≡ some (pos 11, some (0x0B ∷ length name ∷ name))
unfolding send_request fill_request
send_delete [] typed name l e f h = absurd (omega arith)
send_delete (x ∷ []) typed name l e f h = absurd (omega arith)
send_delete (x ∷ y ∷ old) typed name l e f h =
    let (array, filled, sent) = delete_user_array 11 y old name h (omega arith) in
    rw (e, f, set_at [] (y ∷ old) x 11 0 refl, filled, sent) refl

-- A request without parameters is its index.
pub send_plain :
    (buffer : List ℕ) (typed : Typed) (n : ℕ)
    → length buffer ≡ 512
    → typed.number ≡ some (pos n)
    → n ≤ 9
    → send_request buffer typed ≡ some (pos n, some (n ∷ []))
unfolding send_request fill_request
send_plain [] typed n l e h = absurd (omega arith)
send_plain (x ∷ old) typed n l e h = rw e (ground (arith, h, set_at [] old x n 0 refl))
