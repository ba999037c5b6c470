-- ===== src/DataContainer/Sharing.antt =====
-- library/data_container.cpp, how copies share a block: the counter of a block, and its release. A
-- container that holds data has its block and its counter together, so one address stands for both.
pub mod Counting
pub mod Safety
use lsd.Common.{
  ℕ, zero, suc, ◌+◌, ◌==◌, Option, none, some, List, [], ◌∷◌, if◌then◌else◌, ok, err, undefined,
  Exec, Done,
}
use lsd.DataContainer.{take}

pub record Block : Type 0 where
  pub count : ℕ
  pub bytes : List ℕ

-- `blocks` is none where nothing is allocated; an address is not handed out twice. `objects` are the
-- containers that exist, each with the address of its block, none where data_ is NULL.
pub record Heap : Type 0 where
  pub blocks : ℕ → Option Block
  pub next : ℕ
  pub objects : List (Option ℕ)

abbrev pub no_heap : Heap
no_heap = record { blocks = λ a. none; next = 0; objects = [] }

module _ {ℓ} {A : Type ℓ} where
  unfoldable pub get : ℕ → List A → Option A
  get i [] = none
  get zero (x ∷ xs) = some x
  get (suc i) (x ∷ xs) = get i xs

  unfoldable pub set : ℕ → A → List A → List A
  set i y [] = []
  set zero y (x ∷ xs) = y ∷ xs
  set (suc i) y (x ∷ xs) = x ∷ set i y xs

  unfoldable pub remove : ℕ → List A → List A
  remove i [] = []
  remove zero (x ∷ xs) = xs
  remove (suc i) (x ∷ xs) = x ∷ remove i xs

abbrev pub put : ℕ → Option Block → (ℕ → Option Block) → ℕ → Option Block
put k b blocks a = if a == k then b else blocks a

-- `++*ref_counter_`, undefined where the block is gone
unfoldable pub retain : ℕ → Exec Heap (Unit {0})
retain k h = elim (h.blocks k) [
  | none ↦ (err undefined, h)
  | some b ↦ (ok tt, record h { blocks = put k (some (record b { count = suc b.count })) h.blocks })
]

-- What is left of a block whose counter goes down: a counter of zero stays, and at zero the data are
-- deleted.
abbrev pub lowered : (count : ℕ) → List ℕ → Option Block
lowered zero bytes = some (record { count = 0; bytes = bytes })
lowered (suc zero) bytes = none
lowered (suc (suc n)) bytes = some (record { count = suc n; bytes = bytes })

-- The part that the destructor and clear have in common.
unfoldable pub release : ℕ → Exec Heap (Unit {0})
release k h = elim (h.blocks k) [
  | none ↦ (err undefined, h)
  | some b ↦ (ok tt, record h { blocks = put k (lowered b.count b.bytes) h.blocks })
]

abbrev pub retain_of : Option ℕ → Exec Heap (Unit {0})
retain_of none h = (ok tt, h)
retain_of (some k) h = retain k h

abbrev pub release_of : Option ℕ → Exec Heap (Unit {0})
release_of none h = (ok tt, h)
release_of (some k) h = release k h

abbrev pub after : Done × Heap → Exec Heap (Unit {0}) → Done × Heap
after (ok u, h) rest = rest h
after (err e, h) rest = (err e, h)

abbrev pub with_objects : (List (Option ℕ) → List (Option ℕ)) → Exec Heap (Unit {0})
with_objects change h = (ok tt, record h { objects = change h.objects })

-- data_container::data_container(data, size)
unfoldable pub construct : Option (List ℕ) → ℕ → Exec Heap (Unit {0})
unfolding take
construct none size h = with_objects (λ objects. none ∷ objects) h
construct (some block) zero h = with_objects (λ objects. none ∷ objects) h
construct (some block) (suc size) h = (
  ok tt,
  record {
    blocks = put h.next (some (record { count = 1; bytes = take (suc size) block })) h.blocks;
    next = suc h.next;
    objects = some h.next ∷ h.objects;
  },
)

-- data_container::data_container(dc), of the i-th object; nothing is called on an object that is not.
unfoldable pub copy_construct : ℕ → Exec Heap (Unit {0})
unfolding retain get
copy_construct i h = elim (get i h.objects) [
  | none ↦ (ok tt, h)
  | some o ↦ after (retain_of o h) (with_objects (λ objects. o ∷ objects))
]

-- data_container::~data_container
unfoldable pub destroy : ℕ → Exec Heap (Unit {0})
unfolding release get remove
destroy i h = elim (get i h.objects) [
  | none ↦ (ok tt, h)
  | some o ↦ after (release_of o h) (with_objects (remove i))
]

-- data_container::operator =, of the i-th object from the j-th: a copy is made and swapped with the
-- object, and is destroyed with what the object had.
unfoldable pub assign_from : ℕ → ℕ → Exec Heap (Unit {0})
unfolding retain release get set
assign_from i j h = elim (get i h.objects) [
  | none ↦ (ok tt, h)
  | some old ↦ elim (get j h.objects) [
    | none ↦ (ok tt, h)
    | some o ↦ after (after (retain_of o h) (with_objects (set i o))) (release_of old)
  ]
]

-- data_container::clear
unfoldable pub clear : ℕ → Exec Heap (Unit {0})
unfolding release get set
clear i h = elim (get i h.objects) [
  | none ↦ (ok tt, h)
  | some o ↦ after (release_of o h) (with_objects (set i none))
]
