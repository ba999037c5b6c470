-- ===== src/DataContainer/Signing.antt =====
-- The signature of a large container, taken in chunks.
use Prim.Native.Nat.add
use lsd.Common.{
  ℕ, zero, suc, ◌+◌, ◌*◌, ◌/◌, ◌%◌, ◌^◌, ◌<◌, ◌≡◌, refl, sym, ap, ap₂, ◌∙◌, arith, List, [], ◌∷◌,
  ◌++◌, length, Bool-cases, inl, inr, ltb, ◌==◌, if◌then◌else◌,
}
use lsd.DataContainer.{Sha1, take, drop, hash_chunks, sign_data, sha1_chunk_size}
use lsd.DataContainer.Comparison.{take-length}

module _ {ℓ} {A : Type ℓ} where
  take-nil : (n : ℕ) → take {A = A} n [] ≡ []
  unfolding take
  take-nil zero = refl
  take-nil (suc n) = refl

  drop-nil : (n : ℕ) → drop {A = A} n [] ≡ []
  unfolding drop
  drop-nil zero = refl
  drop-nil (suc n) = refl

  take-add : (m n : ℕ) (xs : List A) → take (m + n) xs ≡ take m xs ++ take n (drop m xs)
  unfolding take drop
  take-add zero n xs = rw add.zero refl
  take-add (suc m) n [] = rw (take-nil, take-nil) refl
  take-add (suc m) n (x ∷ xs) = rw add.suc (ap (λ l. x ∷ l) (take-add m n xs))

  drop-add : (m n : ℕ) (xs : List A) → drop (m + n) xs ≡ drop n (drop m xs)
  unfolding drop
  drop-add zero n xs = rw add.zero refl
  drop-add (suc m) n [] = rw (drop-nil, drop-nil) refl
  drop-add (suc m) n (x ∷ xs) = rw add.suc (drop-add m n xs)

-- What OpenSSL documents of SHA1_Update: it can be called repeatedly, for parts of one text.
pub record IsStreaming (sha1 : Sha1) : Type 0 where
  pub in_parts :
      (c : sha1.Context) (xs ys : List ℕ)
      → sha1.update (sha1.update c xs) ys ≡ sha1.update c (xs ++ ys)
  pub of_nothing : (c : sha1.Context) → sha1.update c [] ≡ c

-- The bytes, fed at once.
pub whole_signature : Sha1 → List ℕ → List ℕ
whole_signature sha1 xs = sha1.final (sha1.update sha1.init xs)

module _ (sha1 : Sha1) (s : IsStreaming sha1) where
  hash_chunks_lem :
      (n : ℕ) (c : sha1.Context) (xs : List ℕ)
      → hash_chunks sha1 n c xs
        ≡ (sha1.update c (take (n * sha1_chunk_size) xs), drop (n * sha1_chunk_size) xs)
  unfolding hash_chunks
  hash_chunks_lem zero c xs = ap (λ (a : sha1.Context). (a, xs)) (sym (s.of_nothing c))
  hash_chunks_lem (suc n) c xs =
      let k = sha1_chunk_size in
      let e : k + n * k ≡ suc n * k = omega arith in
      hash_chunks_lem n (sha1.update c (take k xs)) (drop k xs)
      ∙ ap₂ (λ (a : sha1.Context) (b : List ℕ). (a, b))
          (s.in_parts c (take k xs) (take (n * k) (drop k xs))
            ∙ ap (sha1.update c) (sym (take-add k (n * k) xs) ∙ ap (λ m. take m xs) e))
          (sym (drop-add k (n * k) xs) ∙ ap (λ m. drop m xs) e)

  in_chunks :
      (q r : ℕ) (xs : List ℕ)
      → q * sha1_chunk_size + r ≡ length xs
      → sha1.final (
          if r == 0
          then (hash_chunks sha1 q sha1.init xs).0
          else sha1.update
              (hash_chunks sha1 q sha1.init xs).0
              (take r (hash_chunks sha1 q sha1.init xs).1))
        ≡ whole_signature sha1 xs
  unfolding whole_signature
  in_chunks q r xs e =
      let n = q * sha1_chunk_size in
      rw (hash_chunks_lem q sha1.init xs) (elim (Bool-cases (r == 0)) [
        | inl none_left ↦
            let same_size : n ≡ length xs = ground arith in
            rw none_left (
              ap (λ l. sha1.final (sha1.update sha1.init l))
                (ap (λ m. take m xs) same_size ∙ take-length xs))
        | inr some_left ↦ rw some_left (
            ap sha1.final (
              s.in_parts sha1.init (take n xs) (take r (drop n xs))
              ∙ ap (sha1.update sha1.init)
                  (sym (take-add n r xs) ∙ ap (λ m. take m xs) e ∙ take-length xs)))
      ])

  -- If SHA-1 can be fed in parts, then the signature of a block of fewer than 2 ^ 51 bytes, taken in
  -- chunks of 512 kilobytes and what remains, is that of the whole block.
  pub sign_data-whole :
      (xs : List ℕ) → length xs < 2 ^ 51 → sign_data sha1 xs (length xs) ≡ whole_signature sha1 xs
  unfolding sign_data whole_signature
  sign_data-whole xs small =
      in_chunks (length xs / sha1_chunk_size % 2 ^ 32)
        (if ltb (length xs) sha1_chunk_size then length xs else length xs % sha1_chunk_size) xs
        (elim (Bool-cases (ltb (length xs) sha1_chunk_size)) [
          | inl short ↦ rw short (ground arith)
          | inr long ↦ rw long (omega arith)
        ])
