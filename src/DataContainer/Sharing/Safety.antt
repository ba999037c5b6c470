-- ===== src/DataContainer/Sharing/Safety.antt =====
-- No history of calls on containers counts or deletes a block that is gone.
use lsd.Common.{
  ℕ, zero, suc, ◌+◌, ◌≤◌, ◌≡◌, refl, sym, ◌∙◌, ap, arith, ◌==◌, Option, none, some, List, [], ◌∷◌,
  ok, Exec, Bool-cases, Option-cases, inl, inr, subst,
}
use lsd.DataContainer.Sharing.{
  Heap, get, set, remove, retain_of, release_of, after, with_objects, construct, copy_construct,
  destroy, assign_from, clear,
}
use lsd.DataContainer.Sharing.Counting.{
  uses, users, Agrees, IsCounted, number-eq, uses-get, users-remove, users-set, retain_of_lem,
  release_of_lem, after-ok, IsFine, finish,
}

copy-IsFine : (i : ℕ) (h : Heap) → IsCounted h → IsFine (copy_construct i h)
unfolding copy_construct
copy-IsFine i h c = elim (Option-cases (get i h.objects)) [
  | inl e ↦ rw (e, copy_construct) (record { ends = refl; counted = c })
  | inr (o, e) ↦
      let most = λ (a : ℕ). uses-get i a o h.objects e in
      rw (e, copy_construct)
        (finish h (retain_of o h) (λ objects. o ∷ objects)
          (retain_of_lem o h (λ a. users a h.objects) _ c.agrees most (λ a. omega arith))
          (λ a above.
            let none_there = c.fresh a above in
            let at_most = most a in omega (arith, none_there, at_most)))
]

destroy-IsFine : (i : ℕ) (h : Heap) → IsCounted h → IsFine (destroy i h)
unfolding destroy
destroy-IsFine i h c = elim (Option-cases (get i h.objects)) [
  | inl e ↦ rw (e, destroy) (record { ends = refl; counted = c })
  | inr (o, e) ↦
      let fewer = λ (a : ℕ). users-remove i a o h.objects e in
      rw (e, destroy)
        (finish h (release_of o h) (remove i)
          (release_of_lem o h (λ a. users a h.objects) _ c.agrees fewer)
          (λ a above.
            let none_there = c.fresh a above in
            let less = fewer a in omega (arith, none_there, less)))
]

clear-IsFine : (i : ℕ) (h : Heap) → IsCounted h → IsFine (clear i h)
unfolding clear
clear-IsFine i h c = elim (Option-cases (get i h.objects)) [
  | inl e ↦ rw (e, clear) (record { ends = refl; counted = c })
  | inr (o, e) ↦
      let fewer = λ (a : ℕ). users-set i a none o h.objects e in
      rw (e, clear)
        (finish h (release_of o h) (set i none)
          (release_of_lem o h (λ a. users a h.objects) _ c.agrees
            (λ a. let less = fewer a in omega (arith, less)))
          (λ a above.
            let none_there = c.fresh a above in
            let less = fewer a in omega (arith, none_there, less)))
]

-- One more container without a block.
empty-IsCounted : (h : Heap) → IsCounted h → IsCounted (record h { objects = none ∷ h.objects })
empty-IsCounted h c = record {
  agrees = λ a. subst (Agrees (h.blocks a)) (omega arith) (c.agrees a);
  fresh = λ a above. let none_there = c.fresh a above in omega (arith, none_there);
}

construct-IsFine :
    (block : Option (List ℕ)) (size : ℕ) (h : Heap) → IsCounted h → IsFine (construct block size h)
unfolding construct
construct-IsFine none size h c = record { ends = refl; counted = empty-IsCounted h c }
construct-IsFine (some block) zero h c = record { ends = refl; counted = empty-IsCounted h c }
construct-IsFine (some block) (suc size) h c = record {
  ends = refl;
  counted = record {
    agrees = λ a. elim (Bool-cases (a == h.next)) [
      | inl here ↦
          let unused = c.fresh a (let same = number-eq a h.next here in omega (arith, same)) in
          rw here (omega (arith, unused), omega (arith, unused))
      | inr there ↦ rw there (subst (Agrees (h.blocks a)) (omega arith) (c.agrees a))
    ];
    fresh = λ a above. elim (Bool-cases (a == h.next)) [
      | inl here ↦ absurd (let same = number-eq a h.next here in omega (arith, same, above))
      | inr there ↦
          rw there (let unused = c.fresh a (omega (arith, above)) in omega (arith, unused))
    ];
  };
}

assign-IsFine : (i j : ℕ) (h : Heap) → IsCounted h → IsFine (assign_from i j h)
unfolding assign_from
assign-IsFine i j h c = elim (Option-cases (get i h.objects)) [
  | inl e ↦ rw (e, assign_from) (record { ends = refl; counted = c })
  | inr (old, e) ↦ elim (Option-cases (get j h.objects)) [
    | inl e' ↦ rw (e, assign_from) (rw e' (record { ends = refl; counted = c }))
    | inr (o, e') ↦ rw (e, assign_from) (rw e' (swapped old o e e'))
  ]
]
  where
    swapped :
        (old o : Option ℕ)
        → get i h.objects ≡ some old
        → get j h.objects ≡ some o
        → IsFine (after (after (retain_of o h) (with_objects (set i o))) (release_of old))
    swapped old o e e' =
        let p = retain_of o h in
        let most = λ (a : ℕ). uses-get j a o h.objects e' in
        let moved = λ (a : ℕ). users-set i a o old h.objects e in
        let raised =
          retain_of_lem o h (λ a. users a h.objects) (λ a. users a h.objects + uses o a) c.agrees
            most (λ a. refl) in
        let h1 : Heap = record p.1 { objects = set i o p.1.objects } in
        let lowered =
          release_of_lem old h1 (λ a. users a h.objects + uses o a)
            (λ a. users a (set i o h.objects)) raised.agrees moved in
        subst IsFine
          (sym
            (ap (λ q. after q (release_of old)) (after-ok p (with_objects (set i o)) raised.ends)))
          (record {
            ends = lowered.ends;
            counted = record {
              agrees = λ a.
                  subst (λ objects. Agrees ((release_of old h1).1.blocks a) (users a objects))
                    (sym (lowered.objects ∙ ap (set i o) raised.objects)) (lowered.agrees a);
              fresh = λ a above.
                  ap (users a) (lowered.objects ∙ ap (set i o) raised.objects)
                  ∙ (let none_there =
                        c.fresh a (subst (λ n. n ≤ a) (lowered.next ∙ raised.next) above) in
                      let at_most = most a in
                      let same = moved a in omega (arith, none_there, at_most, same));
            };
          })

-- The calls on containers.
pub data Call : Type 0 where
  constructs : Option (List ℕ) → ℕ → Call
  copies : ℕ → Call
  assigns : ℕ → ℕ → Call
  clears : ℕ → Call
  destroys : ℕ → Call

unfoldable pub step : Call → Exec Heap (Unit {0})
step (constructs block size) = construct block size
step (copies i) = copy_construct i
step (assigns i j) = assign_from i j
step (clears i) = clear i
step (destroys i) = destroy i

unfoldable pub run : List Call → Exec Heap (Unit {0})
run [] h = (ok tt, h)
run (call ∷ calls) h = after (step call h) (run calls)

step-IsFine : (call : Call) (h : Heap) → IsCounted h → IsFine (step call h)
unfolding step
step-IsFine (constructs block size) h c = construct-IsFine block size h c
step-IsFine (copies i) h c = copy-IsFine i h c
step-IsFine (assigns i j) h c = assign-IsFine i j h c
step-IsFine (clears i) h c = clear-IsFine i h c
step-IsFine (destroys i) h c = destroy-IsFine i h c

-- Where the counters are right, no history of calls ever counts or deletes a block that is gone, and the
-- counters are right at the end: each block that is there counts the containers that share it, of
-- which there are some, and no container has a block that is not there.
pub run-IsFine : (calls : List Call) (h : Heap) → IsCounted h → IsFine (run calls h)
unfolding run
run-IsFine [] h c = record { ends = refl; counted = c }
run-IsFine (call ∷ calls) h c =
    let first = step-IsFine call h c in
    subst IsFine (sym (after-ok (step call h) (run calls) first.ends))
      (run-IsFine calls (step call h).1 first.counted)
