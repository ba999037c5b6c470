-- ===== src/TimeValue/Distance.antt =====
-- The loop of time_value::distance: that it ends, and what it computes.
use lsd.Common.{ℕ, zero, suc, ◌+◌, ◌*◌, ◌≤◌, ◌≡◌, refl, ◌∙◌, arith, if◌then◌else◌}
use lsd.Common.Int.{ℤ, pos, negsuc, pos_part, neg_part, sub_ℕ, ◌-ℤ◌, ◌*ℤ◌}
use lsd.TimeValue.{TimeValue, is_negative, microseconds, borrow, normalize, distance_micros}

-- Two integers whose parts differ by the same are one.
sub_ℕ-cong : (a b c d : ℕ) → a + d ≡ c + b → sub_ℕ a b ≡ sub_ℕ c d
sub_ℕ-cong a b c d e = ground arith

parts : (a b : ℕ) → pos_part (sub_ℕ a b) + b ≡ neg_part (sub_ℕ a b) + a
parts a b = ground arith

-- The arithmetic of one round, on the parts of the integers in it: of the seconds before and after
-- it, both in microseconds, and of the microseconds before and after it.
round_arith :
    (ps ns ps' ns' pa na pb nb pu nu pu' nu' : ℕ)
    → ps' + (ns + 1) ≡ ns' + (ps + 0)
    → pa + ns' * 1000000 ≡ na + ps' * 1000000
    → pb + ns * 1000000 ≡ nb + ps * 1000000
    → pu' + (nu + 0) ≡ nu' + (pu + 1000000)
    → pa + pu' + (nb + nu) ≡ pb + pu + (na + nu')
round_arith ps ns ps' ns' pa na pb nb pu nu pu' nu' e1 e2 e3 e4 = omega arith

-- A round of the loop keeps the time that it works on.
microseconds-borrow : (t : TimeValue) → microseconds (borrow t) ≡ microseconds t
unfolding microseconds borrow
microseconds-borrow t = sub_ℕ-cong _ _ _ _ (
    round_arith ps ns (pos_part sec) (neg_part sec) _ _ _ _ (pos_part t.tv_usec)
      (neg_part t.tv_usec) _ _ (parts (ps + 0) (ns + 1))
      (parts (pos_part sec * 1000000) (neg_part sec * 1000000))
      (parts (ps * 1000000) (ns * 1000000))
      (parts (pos_part t.tv_usec + 1000000) (neg_part t.tv_usec + 0)))
  where
    ps : ℕ
    ps = pos_part t.tv_sec

    ns : ℕ
    ns = neg_part t.tv_sec

    sec : ℤ
    sec = t.tv_sec -ℤ pos 1

neg_part-borrow : (t : TimeValue) (n : ℕ) → t.tv_usec ≡ negsuc n → neg_part (borrow t).tv_usec ≤ n
unfolding borrow
neg_part-borrow t n e = ground arith

-- The time `t'` has no negative microseconds, and is the time `t`.
unfoldable pub IsNormal : TimeValue → TimeValue → Type 0
IsNormal t t' = (neg_part t'.tv_usec ≡ 0) × (microseconds t' ≡ microseconds t)

either-IsNormal :
    (u : ℤ) (t x y : TimeValue)
    → ((n : ℕ) → u ≡ negsuc n → IsNormal t x)
    → ((n : ℕ) → u ≡ pos n → IsNormal t y)
    → IsNormal t (if is_negative u then x else y)
either-IsNormal (negsuc n) t x y hx hy = hx n refl
either-IsNormal (pos n) t x y hx hy = hy n refl

-- With fuel for the magnitude of the negative microseconds, the loop of distance ends: its result
-- has no negative microseconds, and is the same time in microseconds.
pub normalize-ends :
    (fuel : ℕ) (t : TimeValue) → neg_part t.tv_usec ≤ fuel → IsNormal t (normalize fuel t)
unfolding normalize IsNormal
normalize-ends zero t h = (ground arith, refl)
normalize-ends (suc fuel) t h =
    either-IsNormal t.tv_usec t (normalize fuel (borrow t)) t
      (λ n e.
        let (ends, keeps) =
          normalize-ends fuel (borrow t) (ground (arith, neg_part-borrow t n e)) in
        (ends, keeps ∙ microseconds-borrow t))
      (λ n e. (ground (arith, e), refl))

-- The arithmetic of the difference: the parts of the seconds and microseconds of two times, of
-- their differences, and of the products that microseconds takes.
difference_arith :
    (al an bs bn au an' bu bn' ds dn du dn' pa na pb nb pd nd pam nam pbm nbm : ℕ)
    → ds + (bn + al) ≡ dn + (bs + an)
    → du + (bn' + au) ≡ dn' + (bu + an')
    → pa + an * 1000000 ≡ na + al * 1000000
    → pb + bn * 1000000 ≡ nb + bs * 1000000
    → pd + dn * 1000000 ≡ nd + ds * 1000000
    → pam + (na + an') ≡ nam + (pa + au)
    → pbm + (nb + bn') ≡ nbm + (pb + bu)
    → pd + du + (nbm + pam) ≡ pbm + nam + (nd + dn')
difference_arith al an bs bn au an' bu bn' ds dn du dn' pa na pb nb pd nd pam nam pbm nbm e1 e2 e3
      e4 e5 e6 e7 =
    omega arith

-- The loop aside, `distance` takes the difference of the two times in microseconds.
pub distance_micros_lem :
    (this rhs : TimeValue) → distance_micros this rhs ≡ microseconds rhs -ℤ microseconds this
unfolding distance_micros microseconds IsNormal
distance_micros_lem this rhs =
    (normalize-ends (neg_part usec) (record { tv_sec = sec; tv_usec = usec }) (omega arith)).1
    ∙ sub_ℕ-cong _ _ _ _ (
        difference_arith al an bs bn (pos_part this.tv_usec) (neg_part this.tv_usec)
          (pos_part rhs.tv_usec) (neg_part rhs.tv_usec) (pos_part sec) (neg_part sec)
          (pos_part usec) (neg_part usec) _ _ _ _ _ _ _ _ _ _ (parts (bs + an) (bn + al))
          (parts (pos_part rhs.tv_usec + neg_part this.tv_usec)
            (neg_part rhs.tv_usec + pos_part this.tv_usec))
          (parts (al * 1000000) (an * 1000000)) (parts (bs * 1000000) (bn * 1000000))
          (parts (pos_part sec * 1000000) (neg_part sec * 1000000))
          (parts (pos_part (this.tv_sec *ℤ 1000000) + pos_part this.tv_usec)
            (neg_part (this.tv_sec *ℤ 1000000) + neg_part this.tv_usec))
          (parts (pos_part (rhs.tv_sec *ℤ 1000000) + pos_part rhs.tv_usec)
            (neg_part (rhs.tv_sec *ℤ 1000000) + neg_part rhs.tv_usec)))
  where
    al : ℕ
    al = pos_part this.tv_sec

    an : ℕ
    an = neg_part this.tv_sec

    bs : ℕ
    bs = pos_part rhs.tv_sec

    bn : ℕ
    bn = neg_part rhs.tv_sec

    sec : ℤ
    sec = rhs.tv_sec -ℤ this.tv_sec

    usec : ℤ
    usec = rhs.tv_usec -ℤ this.tv_usec
