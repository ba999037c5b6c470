-- ===== src/OrderedMap/Keys.antt =====
-- The key types of the program: texts, addresses, and pairs of texts.
use Prim.Native.Nat.{compare}
use Prim.Native.String.{compare as compare_text}
use text.Mathlib.TextEquality.{path_by_compare}
use text.Mathlib.TextPositions.{compare_refl, compare_self}
use lsd.Common.{ℕ, String, ◌≡◌, arith, Ordering}
use lsd.OrderedMap.{Key}

pub nat_flip : (a b : ℕ) → compare a b ≡ Ordering.gt → compare b a ≡ Ordering.lt
nat_flip a b h = ground arith

pub nat_trans :
    (a b c : ℕ) → compare a b ≡ Ordering.lt → compare b c ≡ Ordering.lt → compare a c ≡ Ordering.lt
nat_trans a b c h k = ground arith

pub nat_eq : (a b : ℕ) → compare a b ≡ Ordering.eq → a ≡ b
nat_eq a b h = ground arith

pub text_flip : (s t : String) → compare_text s t ≡ Ordering.gt → compare_text t s ≡ Ordering.lt
text_flip String.[] String.[] h = let e : Ordering.eq ≡ Ordering.gt = h in cc
text_flip String.[] (String.◌∷◌ d t) h = cc (Prim.Native.String.compare.nil-cons d t)
text_flip (String.◌∷◌ c s) String.[] h = cc (Prim.Native.String.compare.nil-cons c s)
text_flip (String.◌∷◌ c s) (String.◌∷◌ d t) h = ground (
  arith,
  text_flip s t,
  Prim.Native.String.compare.cons-cons c d s t,
  Prim.Native.String.compare.cons-cons d c t s,
)

pub text_trans :
    (s t u : String)
    → compare_text s t ≡ Ordering.lt
    → compare_text t u ≡ Ordering.lt
    → compare_text s u ≡ Ordering.lt
text_trans String.[] String.[] u h k = let e : Ordering.eq ≡ Ordering.lt = h in cc
text_trans String.[] (String.◌∷◌ d t) String.[] h k = cc (Prim.Native.String.compare.cons-nil d t)
text_trans String.[] (String.◌∷◌ d t) (String.◌∷◌ e u) h k =
    cc (Prim.Native.String.compare.nil-cons e u)
text_trans (String.◌∷◌ c s) String.[] u h k = cc (Prim.Native.String.compare.cons-nil c s)
text_trans (String.◌∷◌ c s) (String.◌∷◌ d t) String.[] h k =
    cc (Prim.Native.String.compare.cons-nil d t)
text_trans (String.◌∷◌ c s) (String.◌∷◌ d t) (String.◌∷◌ e u) h k = ground (
  arith,
  text_trans s t u,
  Prim.Native.String.compare.cons-cons c d s t,
  Prim.Native.String.compare.cons-cons d e t u,
  Prim.Native.String.compare.cons-cons c e s u,
)

instance abbrev pub nat_key : Key ℕ
nat_key = record {
  cmp = compare;
  cmp_refl = compare_self;
  cmp_eq = nat_eq;
  cmp_flip = nat_flip;
  cmp_trans = nat_trans;
}

instance abbrev pub text_key : Key String
text_key = record {
  cmp = compare_text;
  cmp_refl = compare_refl;
  cmp_eq = path_by_compare;
  cmp_flip = text_flip;
  cmp_trans = text_trans;
}

-- `std::pair<std::string, std::string>` is compared by its first part, then by its second.
abbrev pair_cmp : String × String → String × String → Ordering
pair_cmp (a, b) (c, d) = elim (compare_text a c) [
  | Ordering.lt ↦ Ordering.lt
  | Ordering.eq ↦ compare_text b d
  | Ordering.gt ↦ Ordering.gt
]

pub pair_refl : (a : String × String) → pair_cmp a a ≡ Ordering.eq
pair_refl (a, b) = ground (arith, compare_refl a, compare_refl b)

pub pair_eq : (a b : String × String) → pair_cmp a b ≡ Ordering.eq → a ≡ b
pair_eq (a, b) (c, d) h = ground (arith, path_by_compare a c, path_by_compare b d)

pub pair_flip : (a b : String × String) → pair_cmp a b ≡ Ordering.gt → pair_cmp b a ≡ Ordering.lt
pair_flip (a, b) (c, d) h =
    ground (arith, text_flip a c, text_flip b d, path_by_compare a c, compare_refl a)

pub pair_trans :
    (a b c : String × String)
    → pair_cmp a b ≡ Ordering.lt
    → pair_cmp b c ≡ Ordering.lt
    → pair_cmp a c ≡ Ordering.lt
pair_trans (a, b) (c, d) (e, f) h k = ground (
  arith,
  text_trans a c e,
  text_trans b d f,
  path_by_compare a c,
  path_by_compare c e,
  compare_refl a,
)

instance abbrev pub pair_key : Key (String × String)
pair_key = record {
  cmp = pair_cmp;
  cmp_refl = pair_refl;
  cmp_eq = pair_eq;
  cmp_flip = pair_flip;
  cmp_trans = pair_trans;
}
