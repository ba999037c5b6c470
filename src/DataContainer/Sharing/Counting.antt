-- ===== src/DataContainer/Sharing/Counting.antt =====
-- The counters are right, so a block is deleted once, and not while it is in use.
use mathlib.Core.Option.{some-injective}
use lsd.Common.{
  ap₂, ℕ, zero, suc, ◌+◌, ◌<◌, ◌≤◌, ◌≡◌, refl, sym, ◌∙◌, ap, arith, ◌==◌, true, false, Option, none,
  some, List, [], ◌∷◌, if◌then◌else◌, ok, err, Exec, Done, Bool-cases, inl, inr, subst,
}
use lsd.DataContainer.Sharing.{
  Block, Heap, get, set, remove, retain, lowered, release, retain_of, release_of, after,
  with_objects,
}

-- One for the containers of a block, for the others none.
abbrev pub uses : Option ℕ → ℕ → ℕ
uses none a = 0
uses (some k) a = if a == k then 1 else 0

-- How many containers have the block at `a`.
abbrev pub users : ℕ → List (Option ℕ) → ℕ
users a [] = 0
users a (o ∷ objects) = uses o a + users a objects

-- A block that is there counts its users, of which there are some; what is not there has none.
abbrev pub Agrees : Option Block → ℕ → Type 0
Agrees none n = n ≡ 0
Agrees (some b) n = (b.count ≡ n) × (0 < n)

pub record IsCounted (h : Heap) : Type 0 where
  pub agrees : (a : ℕ) → Agrees (h.blocks a) (users a h.objects)
  pub fresh : (a : ℕ) → h.next ≤ a → users a h.objects ≡ 0

pub users-remove :
    (i a : ℕ) (o : Option ℕ) (objects : List (Option ℕ))
    → get i objects ≡ some o
    → users a (remove i objects) + uses o a ≡ users a objects
unfolding get remove
users-remove i a o [] e = absurd (ground arith)
users-remove zero a o (x ∷ objects) e = rw (some-injective x o e) (omega arith)
users-remove (suc i) a o (x ∷ objects) e = omega (arith, users-remove i a o objects e)

pub users-set :
    (i a : ℕ) (new old : Option ℕ) (objects : List (Option ℕ))
    → get i objects ≡ some old
    → users a (set i new objects) + uses old a ≡ users a objects + uses new a
unfolding get set
users-set i a new old [] e = absurd (ground arith)
users-set zero a new old (x ∷ objects) e = rw (some-injective x old e) (omega arith)
users-set (suc i) a new old (x ∷ objects) e = omega (arith, users-set i a new old objects e)

pub uses-get :
    (i a : ℕ) (o : Option ℕ) (objects : List (Option ℕ))
    → get i objects ≡ some o
    → uses o a ≤ users a objects
unfolding get
uses-get i a o [] e = absurd (ground arith)
uses-get zero a o (x ∷ objects) e = rw (some-injective x o e) (omega arith)
uses-get (suc i) a o (x ∷ objects) e = omega (arith, uses-get i a o objects e)

same_number : (k : ℕ) → (k == k) ≡ true
same_number k = ground arith

pub number-eq : (a k : ℕ) → (a == k) ≡ true → a ≡ k
number-eq a k e = ground arith

-- At the block, and elsewhere.
uses-here : (a k : ℕ) → (a == k) ≡ true → uses (some k) a ≡ 1
uses-here a k here = rw here refl

uses-there : (a k : ℕ) → (a == k) ≡ false → uses (some k) a ≡ 0
uses-there a k there = rw there refl

raised-Agrees :
    (b : Block) (n n' : ℕ)
    → Agrees (some b) n
    → n' ≡ n + 1
    → Agrees (some (record b { count = suc b.count })) n'
raised-Agrees b n n' (counts, used) e = (omega (arith, counts, e), omega (arith, used, e))

lowered-Agrees :
    (count : ℕ) (bytes : List ℕ) (n' : ℕ) → count ≡ n' + 1 → Agrees (lowered count bytes) n'
lowered-Agrees zero bytes n' e = absurd (omega (arith, e))
lowered-Agrees (suc zero) bytes n' e = omega (arith, e)
lowered-Agrees (suc (suc n)) bytes n' e = (omega (arith, e), omega (arith, e))

-- A block with a user is there.
block_of_user :
    (o : Option Block) (n : ℕ) → Agrees o n → 0 < n → (b : Block) × ((o ≡ some b) × (b.count ≡ n))
block_of_user none n gone used = absurd (omega (arith, gone, used))
block_of_user (some b) n (counts, _) used = (b, (refl, counts))

-- A change of counters that succeeds, after which the users are `n`.
pub record Counts (h : Heap) (p : Done × Heap) (n : ℕ → ℕ) : Type 0 where
  pub ends : p.0 ≡ ok tt
  pub agrees : (a : ℕ) → Agrees (p.1.blocks a) (n a)
  pub next : p.1.next ≡ h.next
  pub objects : p.1.objects ≡ h.objects

retain_lem :
    (k : ℕ) (h : Heap) (n n' : ℕ → ℕ)
    → ((a : ℕ) → Agrees (h.blocks a) (n a))
    → 0 < n k
    → ((a : ℕ) → n' a ≡ n a + uses (some k) a)
    → Counts h (retain k h) n'
unfolding retain
retain_lem k h n n' agrees used more =
    let (b, (e, counts)) = block_of_user (h.blocks k) (n k) (agrees k) used in
    rw (e, retain)
      (record {
        ends = refl;
        next = refl;
        objects = refl;
        agrees = λ a. elim (Bool-cases (a == k)) [
          | inl here ↦
              let same = number-eq a k here in
              rw here (
                raised-Agrees b (n k) (n' a) (counts, used)
                  (more a ∙ ap₂ (λ x y. x + y) (ap n same) (uses-here a k here)))
          | inr there ↦ rw there (
              subst (Agrees (h.blocks a))
                (let kept = more a in
                  let none_more = uses-there a k there in omega (arith, kept, none_more))
                (agrees a))
        ];
      })

release_lem :
    (k : ℕ) (h : Heap) (n n' : ℕ → ℕ)
    → ((a : ℕ) → Agrees (h.blocks a) (n a))
    → ((a : ℕ) → n' a + uses (some k) a ≡ n a)
    → Counts h (release k h) n'
unfolding release
release_lem k h n n' agrees fewer =
    let one_less : n' k + 1 ≡ n k =
      ap (λ x. n' k + x) (sym (uses-here k k (same_number k))) ∙ fewer k in
    let (b, (e, counts)) = block_of_user (h.blocks k) (n k) (agrees k) (omega (arith, one_less)) in
    rw (e, release)
      (record {
        ends = refl;
        next = refl;
        objects = refl;
        agrees = λ a. elim (Bool-cases (a == k)) [
          | inl here ↦ rw here (
              lowered-Agrees b.count b.bytes (n' a)
                (counts ∙ sym one_less ∙ ap (λ x. n' x + 1) (sym (number-eq a k here))))
          | inr there ↦ rw there (
              subst (Agrees (h.blocks a))
                (let kept = fewer a in
                  let none_less = uses-there a k there in omega (arith, kept, none_less))
                (agrees a))
        ];
      })

pub retain_of_lem :
    (o : Option ℕ) (h : Heap) (n n' : ℕ → ℕ)
    → ((a : ℕ) → Agrees (h.blocks a) (n a))
    → ((a : ℕ) → uses o a ≤ n a)
    → ((a : ℕ) → n' a ≡ n a + uses o a)
    → Counts h (retain_of o h) n'
retain_of_lem none h n n' agrees used more = record {
  ends = refl;
  agrees = λ a. subst (Agrees (h.blocks a)) (let same = more a in omega (arith, same)) (agrees a);
  next = refl;
  objects = refl;
}
retain_of_lem (some k) h n n' agrees used more =
    retain_lem k h n n' agrees
      (let here = uses-here k k (same_number k) in let most = used k in omega (arith, here, most))
      more

pub release_of_lem :
    (o : Option ℕ) (h : Heap) (n n' : ℕ → ℕ)
    → ((a : ℕ) → Agrees (h.blocks a) (n a))
    → ((a : ℕ) → n' a + uses o a ≡ n a)
    → Counts h (release_of o h) n'
release_of_lem none h n n' agrees fewer = record {
  ends = refl;
  agrees = λ a. subst (Agrees (h.blocks a)) (let same = fewer a in omega (arith, same)) (agrees a);
  next = refl;
  objects = refl;
}
release_of_lem (some k) h n n' agrees fewer = release_lem k h n n' agrees fewer

pub after-ok :
    (p : Done × Heap) (rest : Exec Heap (Unit {0})) → p.0 ≡ ok tt → after p rest ≡ rest p.1
after-ok (ok u, h) rest e = refl
after-ok (err f, h) rest e = absurd (let wrong : err f ≡ ok tt = e in ground arith)

-- A call that ends well, with right counters.
pub record IsFine (p : Done × Heap) : Type 0 where
  pub ends : p.0 ≡ ok tt
  pub counted : IsCounted p.1

-- After a change of counters the containers change with them.
pub finish :
    (h : Heap) (p : Done × Heap) (change : List (Option ℕ) → List (Option ℕ))
    → Counts h p (λ a. users a (change h.objects))
    → ((a : ℕ) → h.next ≤ a → users a (change h.objects) ≡ 0)
    → IsFine (after p (with_objects change))
finish h p change c fresh = subst IsFine (sym (after-ok p (with_objects change) c.ends)) (record {
  ends = refl;
  counted = record {
    agrees = λ a.
        subst (λ objects. Agrees (p.1.blocks a) (users a (change objects))) (sym c.objects)
          (c.agrees a);
    fresh = λ a above.
        ap (λ objects. users a (change objects)) c.objects
        ∙ fresh a (subst (λ n. n ≤ a) c.next above);
  };
})
