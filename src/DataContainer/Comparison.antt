-- ===== src/DataContainer/Comparison.antt =====
-- Comparison of containers that are too small to be signed.
use lsd.Common.{
  ℕ, zero, suc, ◌≤◌, ◌≡◌, ◌≢◌, ◌↔◌, ◌⊎◌, refl, sym, ap, ap₂, ◌∙◌, arith, true, some, List, [], ◌∷◌,
  length, inl, inr,
}
use lsd.DataContainer.{
  Sha1, DataContainer, take, bytes_eq, memcmp_eq, container_eq, init_with_data, empty_container,
  small_data_size,
}

pub take-length : (xs : List ℕ) → take (length xs) xs ≡ xs
unfolding take
take-length [] = refl
take-length (x ∷ xs) = ap (λ (l : List ℕ). x ∷ l) (take-length xs)

bytes_eq_refl : (xs : List ℕ) → bytes_eq xs xs ≡ true
unfolding bytes_eq
bytes_eq_refl [] = refl
bytes_eq_refl (x ∷ xs) = ground (arith, bytes_eq_refl xs)

eq_of_bytes_eq : (xs ys : List ℕ) → bytes_eq xs ys ≡ true → xs ≡ ys
unfolding bytes_eq
eq_of_bytes_eq [] [] e = refl
eq_of_bytes_eq [] (y ∷ ys) e = absurd (ground arith)
eq_of_bytes_eq (x ∷ xs) [] e = absurd (ground arith)
eq_of_bytes_eq (x ∷ xs) (y ∷ ys) e =
    let same_head : x ≡ y = ground arith in
    ap₂ (λ (n : ℕ) (l : List ℕ). n ∷ l) same_head (eq_of_bytes_eq xs ys (ground arith))

-- A container of the given bytes.
abbrev pub container_of : Sha1 → List ℕ → DataContainer
container_of sha1 xs = init_with_data sha1 (some xs) (length xs)

size-container_of :
    (sha1 : Sha1) (xs : List ℕ)
    → length xs ≤ small_data_size
    → (container_of sha1 xs).size ≡ length xs
unfolding init_with_data empty_container
size-container_of sha1 xs small = ground arith

bytes-container_of :
    (sha1 : Sha1) (xs : List ℕ)
    → length xs ≤ small_data_size
    → length xs ≢ 0
    → (container_of sha1 xs).bytes ≡ some xs
unfolding init_with_data empty_container
bytes-container_of sha1 xs small filled = ground (arith, take-length xs)

-- What the comparison makes of two containers of the same size.
container_eq_same_size :
    (a b : DataContainer) (xs ys : List ℕ)
    → a.size ≡ length xs
    → b.size ≡ length ys
    → length xs ≡ length ys
    → length xs ≢ 0
    → length xs ≤ small_data_size
    → a.bytes ≡ some xs
    → b.bytes ≡ some ys
    → container_eq a b ≡ bytes_eq xs ys
unfolding container_eq memcmp_eq
container_eq_same_size a b xs ys sa sb same filled small ba bb =
    ground (arith, take-length xs, take-length ys)

size_of_equal : (a b : DataContainer) → container_eq a b ≡ true → a.size ≡ b.size
unfolding container_eq
size_of_equal a b e = ground arith

equal_of_empty : (a b : DataContainer) → a.size ≡ 0 → b.size ≡ 0 → container_eq a b ≡ true
unfolding container_eq
equal_of_empty a b sa sb = ground arith

is_empty_or_not : (n : ℕ) → (n ≡ 0) ⊎ (n ≢ 0)
is_empty_or_not zero = inl refl
is_empty_or_not (suc n) = inr (λ e. absurd (omega arith))

both_empty : (xs ys : List ℕ) → length xs ≡ 0 → length ys ≡ 0 → xs ≡ ys
both_empty [] [] ex ey = refl
both_empty [] (y ∷ ys) ex ey = absurd (omega arith)
both_empty (x ∷ xs) ys ex ey = absurd (omega arith)

-- Two containers of at most small_data_size bytes each are equal exactly if their bytes are.
pub container_eq_iff :
    (sha1 : Sha1) (xs ys : List ℕ)
    → length xs ≤ small_data_size
    → length ys ≤ small_data_size
    → (container_eq (container_of sha1 xs) (container_of sha1 ys) ≡ true) ↔ (xs ≡ ys)
container_eq_iff sha1 xs ys small_x small_y = (to_equal, of_equal)
  where
    sx : (container_of sha1 xs).size ≡ length xs
    sx = size-container_of sha1 xs small_x

    sy : (container_of sha1 ys).size ≡ length ys
    sy = size-container_of sha1 ys small_y

    compared :
        length xs ≡ length ys
        → length xs ≢ 0
        → container_eq (container_of sha1 xs) (container_of sha1 ys) ≡ bytes_eq xs ys
    compared same filled =
        container_eq_same_size (container_of sha1 xs) (container_of sha1 ys) xs ys sx sy same filled
          small_x (bytes-container_of sha1 xs small_x filled)
          (bytes-container_of sha1 ys small_y (λ e. filled (same ∙ e)))

    to_equal : container_eq (container_of sha1 xs) (container_of sha1 ys) ≡ true → xs ≡ ys
    to_equal e =
        let same = sym sx ∙ size_of_equal (container_of sha1 xs) (container_of sha1 ys) e ∙ sy in
        elim (is_empty_or_not (length xs)) [
          | inl none_x ↦ both_empty xs ys none_x (sym same ∙ none_x)
          | inr filled ↦ eq_of_bytes_eq xs ys (sym (compared same filled) ∙ e)
        ]

    of_equal : xs ≡ ys → container_eq (container_of sha1 xs) (container_of sha1 ys) ≡ true
    of_equal e =
        let same = ap (λ (l : List ℕ). length l) e in
        elim (is_empty_or_not (length xs)) [
          | inl none_x ↦
              equal_of_empty (container_of sha1 xs) (container_of sha1 ys) (sx ∙ none_x)
                (sy ∙ sym same ∙ none_x)
          | inr filled ↦
              compared same filled ∙ ap (λ (l : List ℕ). bytes_eq xs l) (sym e) ∙ bytes_eq_refl xs
        ]
