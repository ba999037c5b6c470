-- ===== src/DataContainer.antt =====
-- library/data_container.cpp: a block of bytes, signed with SHA-1 when it is large. Copies share the
-- block in the code; here a container is the block's value, and Sharing has the blocks themselves.
pub mod Comparison
pub mod Signing
pub mod Sharing
use lsd.Common.{
  ℕ, zero, suc, ◌/◌, ◌%◌, ◌^◌, Bool, true, false, not, ◌&&◌, Option, none, some, List, [], ◌∷◌, ltb,
  leb, ◌==◌, if◌then◌else◌,
}

-- The SHA-1 functions of OpenSSL.
pub record Sha1 : Type 1 where
  pub Context : Type 0
  pub init : Context
  pub update : Context → List ℕ → Context
  pub final : Context → List ℕ

abbrev pub sha1_size : ℕ
sha1_size = 20

abbrev pub sha1_chunk_size : ℕ
sha1_chunk_size = 524288

abbrev pub small_data_size : ℕ
small_data_size = 1048576

module _ {ℓ} {A : Type ℓ} where
  -- The first `n` bytes at a pointer, and what lies behind them.
  unfoldable pub take : ℕ → List A → List A
  take zero xs = []
  take (suc n) [] = []
  take (suc n) (x ∷ xs) = x ∷ take n xs

  unfoldable pub drop : ℕ → List A → List A
  drop zero xs = xs
  drop (suc n) [] = []
  drop (suc n) (x ∷ xs) = drop n xs

  unfoldable pub replicate : ℕ → A → List A
  replicate zero a = []
  replicate (suc n) a = a ∷ replicate n a

unfoldable pub bytes_eq : List ℕ → List ℕ → Bool
bytes_eq [] [] = true
bytes_eq (x ∷ xs) (y ∷ ys) = let rest = bytes_eq xs ys in if x == y then rest else false
bytes_eq _ _ = false

-- `bytes` is none where data_ is NULL.
pub record DataContainer : Type 0 where
  pub bytes : Option (List ℕ)
  pub size : ℕ
  pub is_signed : Bool
  pub signature : List ℕ

-- data_container::init
unfoldable pub empty_container : DataContainer
unfolding replicate
empty_container = record {
  bytes = none;
  size = 0;
  is_signed = false;
  signature = replicate sha1_size 0;
}

module _ (sha1 : Sha1) where
  open sha1 use {Context, init, update, final}

  -- The loop over the full chunks: what is hashed, and where the pointer then stands.
  unfoldable pub hash_chunks : ℕ → Context → List ℕ → Context × List ℕ
  unfolding take drop
  hash_chunks zero c rest = (c, rest)
  hash_chunks (suc n) c rest =
      hash_chunks n (update c (take sha1_chunk_size rest)) (drop sha1_chunk_size rest)

  unfoldable pub sign_data : List ℕ → ℕ → List ℕ
  unfolding hash_chunks take
  sign_data block size =
      let full_chunks_count = size / sha1_chunk_size % 2 ^ 32 in
      let (c, rest) = hash_chunks full_chunks_count init block in
      let remainder = if ltb size sha1_chunk_size then size else size % sha1_chunk_size in
      final (if remainder == 0 then c else update c (take remainder rest))

  -- data_container::init_with_data: nothing is kept of a NULL pointer or of no bytes
  unfoldable pub init_with_data : Option (List ℕ) → ℕ → DataContainer
  unfolding empty_container sign_data take
  init_with_data none size = empty_container
  init_with_data (some block) size =
      if size == 0
      then empty_container
      else let kept = take size block in
        if leb size small_data_size
        then record empty_container { bytes = some kept; size = size }
        else record {
          bytes = some kept;
          size = size;
          is_signed = true;
          signature = sign_data kept size;
        }

-- memcmp(a, b, n) == 0
unfoldable pub memcmp_eq : Option (List ℕ) → Option (List ℕ) → ℕ → Bool
unfolding bytes_eq take
memcmp_eq (some a) (some b) n = bytes_eq (take n a) (take n b)
memcmp_eq _ _ n = false

-- data_container::operator ==
unfoldable pub container_eq : DataContainer → DataContainer → Bool
unfolding memcmp_eq bytes_eq
container_eq a b =
    if not (a.size == b.size)
    then false
    else if a.size == 0 && b.size == 0
    then true
    else if leb a.size small_data_size
    then memcmp_eq a.bytes b.bytes a.size
    else bytes_eq a.signature b.signature
