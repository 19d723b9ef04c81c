-- ===== src/OtaTransfer/Bytes.antt =====
-- Pieces of an image, and what a memory holds of it.
use can_systems.Prelude.{
  ℕ, zero, suc, ◌+◌, ◌≤◌, ◌<◌, ◌≡◌, refl, sym, ap, ap₂, ◌∙◌, arith, List, [], ◌∷◌, length, take,
  drop, get_or, length-take, length-drop,
}
pub use can_systems.Prelude.{take-append_drop, take-all}
use can_systems.CanProtocol.OtaFrame.{pack_send, unpack_send}
use can_systems.Crc16
use can_systems.Crc16.{Crc16}
use can_systems.Crc16.Streaming.{next_all-append}
use can_systems.FlashOta.{keep_first}

pub get_or-drop : (p i : ℕ) (xs : List ℕ) → get_or (drop p xs) i 0 ≡ get_or xs (p + i) 0
get_or-drop zero i xs = let e : i ≡ 0 + i = omega arith in ap (λ k. get_or xs k 0) e
get_or-drop (suc p) i [] = refl
get_or-drop (suc p) i (x ∷ xs) =
    let e : suc (p + i) ≡ suc p + i = omega arith in
    get_or-drop p i xs ∙ ap (λ k. get_or (x ∷ xs) k 0) e

pub get_or-take : (n i : ℕ) (xs : List ℕ) → i < n → get_or (take n xs) i 0 ≡ get_or xs i 0
get_or-take zero i xs h = absurd (omega arith)
get_or-take (suc n) i [] h = refl
get_or-take (suc n) zero (x ∷ xs) h = refl
get_or-take (suc n) (suc i) (x ∷ xs) h = get_or-take n i xs (omega arith)

-- The bytes of a memory from an address on.
unfoldable pub bytes_at : (ℕ → ℕ) → ℕ → ℕ → List ℕ
bytes_at m a zero = []
bytes_at m a (suc n) = m a ∷ bytes_at m (a + 1) n

pub length-bytes_at : (m : ℕ → ℕ) (a n : ℕ) → length (bytes_at m a n) ≡ n
unfolding bytes_at
length-bytes_at m a zero = refl
length-bytes_at m a (suc n) = ap suc (length-bytes_at m (a + 1) n)

pub take_step :
    (n q : ℕ) (xs : List ℕ)
    → q < length xs
    → take (suc n) (drop q xs) ≡ get_or xs q 0 ∷ take n (drop (q + 1) xs)
take_step n q [] h = absurd (omega arith)
take_step n zero (x ∷ xs) h =
    let e : 1 ≡ 0 + 1 = omega arith in ap (λ k. x ∷ take n (drop k (x ∷ xs))) e
take_step n (suc q) (x ∷ xs) h =
    let e : suc (q + 1) ≡ suc q + 1 = omega arith in
    take_step n q xs (omega arith) ∙ ap (λ k. get_or xs q 0 ∷ take n (drop k (x ∷ xs))) e

-- What is read of a part of the image that the memory holds.
pub bytes_at-image :
    (m : ℕ → ℕ) (begin q n : ℕ) (xs : List ℕ)
    → q + n ≤ length xs
    → ((i : ℕ) → q ≤ i → i < q + n → m (begin + i) ≡ get_or xs i 0)
    → bytes_at m (begin + q) n ≡ take n (drop q xs)
unfolding bytes_at
bytes_at-image m begin q zero xs h k = refl
bytes_at-image m begin q (suc n) xs h k =
    let e : begin + q + 1 ≡ begin + (q + 1) = omega arith in
    ap₂ (λ b bs. b ∷ bs) (k q (omega arith) (omega arith))
      (ap (λ a. bytes_at m a n) e
        ∙ bytes_at-image m begin (q + 1) n xs (omega arith)
            (λ i l u. k i (omega arith) (omega arith)))
    ∙ sym (take_step n q xs (omega arith))

-- The piece that a node takes out of the seven bytes of a frame is the piece that was sent.
pub take-unpack_send :
    (piece : List ℕ) (sequence : ℕ)
    → length piece ≤ 7
    → take
        (length piece)
        (unpack_send (pack_send (record { piece = piece; sequence = sequence }))).piece
      ≡ piece
unfolding unpack_send pack_send
take-unpack_send [] s h = refl
take-unpack_send (a ∷ []) s h = refl
take-unpack_send (a ∷ b ∷ []) s h = refl
take-unpack_send (a ∷ b ∷ c ∷ []) s h = refl
take-unpack_send (a ∷ b ∷ c ∷ d ∷ []) s h = refl
take-unpack_send (a ∷ b ∷ c ∷ d ∷ e ∷ []) s h = refl
take-unpack_send (a ∷ b ∷ c ∷ d ∷ e ∷ f ∷ []) s h = refl
take-unpack_send (a ∷ b ∷ c ∷ d ∷ e ∷ f ∷ g ∷ []) s h = refl
take-unpack_send (a ∷ b ∷ c ∷ d ∷ e ∷ f ∷ g ∷ i ∷ xs) s h = absurd (omega arith)

pub keep_first-later :
    (first : List ℕ) (p : ℕ) (bs : List ℕ) → 2 ≤ p → keep_first first p bs ≡ (first, p, bs)
unfolding keep_first
keep_first-later first p [] h = refl
keep_first-later first p (b ∷ bs) h = ground arith

pub keep_first-begin :
    (x y a b : ℕ) (bs : List ℕ) → keep_first (x ∷ y ∷ []) 0 (a ∷ b ∷ bs) ≡ (a ∷ b ∷ [], 2, bs)
unfolding keep_first
keep_first-begin x y a b bs = keep_first-later (a ∷ b ∷ []) 2 bs (omega arith)

pub two_items : (xs : List ℕ) → length xs ≡ 2 → xs ≡ get_or xs 0 0 ∷ get_or xs 1 0 ∷ []
two_items [] h = absurd (omega arith)
two_items (x ∷ []) h = absurd (omega arith)
two_items (x ∷ y ∷ []) h = refl
two_items (x ∷ y ∷ z ∷ xs) h = absurd (omega arith)

pub take-two :
    (n : ℕ) (xs : List ℕ)
    → 2 ≤ length xs
    → take (2 + n) xs ≡ get_or xs 0 0 ∷ get_or xs 1 0 ∷ take n (drop 2 xs)
take-two n [] h = absurd (omega arith)
take-two n (x ∷ []) h = absurd (omega arith)
take-two n (x ∷ y ∷ xs) h =
    let e : 2 + n ≡ suc (suc n) = omega arith in ap (λ k. take k (x ∷ y ∷ xs)) e

-- The checksum object as both sides construct it.
abbrev pub start_crc : Crc16
start_crc = Crc16.new 0 0x1021

pub count_more :
    (xs : List ℕ) (q n : ℕ) (bs : List ℕ) (c : Crc16)
    → c ≡ Crc16.next_all start_crc (take q xs)
    → bs ≡ take n (drop q xs)
    → Crc16.next_all c bs ≡ Crc16.next_all start_crc (take (q + n) xs)
count_more xs q n bs c e f =
    ap₂ Crc16.next_all e f
    ∙ sym (next_all-append start_crc (take q xs) (take n (drop q xs)))
    ∙ ap (Crc16.next_all start_crc) (sym (take-append_drop q n xs))

pub length-part : (xs : List ℕ) (q n : ℕ) → q + n ≤ length xs → length (take n (drop q xs)) ≡ n
length-part xs q n h = omega (arith, length-take n (drop q xs), length-drop q xs)
