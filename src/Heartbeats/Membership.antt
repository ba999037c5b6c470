-- ===== src/Heartbeats/Membership.antt =====
-- The handles that were collected, as a set.
use mathlib.Core.HLevel.{⊥_prop}
use mathlib.Core.Logic.Or
use mathlib.Core.List.{
  perm_append_comm, Nodup, Nodup-cons, Mem, mem-cons, mem-cons_self, mem-cons_of_mem, not-mem-nil,
  mem-append, mem-append_left, Mem-prop, append-nil, append_assoc,
}
use mathlib.Core.List.Perm
use lsd.Common.{
  ℕ, ◌≡◌, ◌↔◌, refl, sym, subst, arith, true, false, List, [], ◌∷◌, ◌++◌, Bool-cases, inl, inr, ◌⊎◌,
  All, All-append, if◌then◌else◌, str_eq_iff,
}
use lsd.Hosts.{HostInfo, HandleInfo, handle_info_eq}
use lsd.Heartbeats.Pings.{is_collected, add_handle, add_handles, add_host, Collected}

same_handle :
    (a b : HandleInfo) → a.name ≡ b.name → a.service_name ≡ b.service_name → a.port ≡ b.port → a ≡ b
same_handle a b n s p = cc

handle_info-eq : (a b : HandleInfo) → handle_info_eq a b ≡ true → a ≡ b
unfolding handle_info_eq
handle_info-eq a b h =
    same_handle a b (ground (arith, str_eq_iff a.name b.name))
      (ground (arith, str_eq_iff a.service_name b.service_name)) (ground arith)

pub handle_info_refl : (a : HandleInfo) → handle_info_eq a a ≡ true
unfolding handle_info_eq
handle_info_refl a =
    ground
      (arith, (str_eq_iff a.name a.name).1 refl, (str_eq_iff a.service_name a.service_name).1 refl)

mem_of_collected : (x : HandleInfo) (l : List HandleInfo) → is_collected x l ≡ true → Mem x l
unfolding is_collected
mem_of_collected x [] h = absurd (ground arith)
mem_of_collected x (there ∷ others) h = elim (Bool-cases (handle_info_eq there x)) [
  | inl hit ↦ subst (λ y. Mem x (y ∷ others)) (sym (handle_info-eq there x hit)) mem-cons_self
  | inr miss ↦ mem-cons_of_mem there (mem_of_collected x others (ground arith))
]

hit_is_equal : (x there : HandleInfo) → x ≡ there → handle_info_eq there x ≡ true
hit_is_equal x there hit = subst (λ y. handle_info_eq y x ≡ true) hit (handle_info_refl x)

not-mem_of_collected : (x : HandleInfo) (l : List HandleInfo) → is_collected x l ≡ false → ¬ Mem x l
unfolding is_collected
not-mem_of_collected x [] h mem = not-mem-nil mem
not-mem_of_collected x (there ∷ others) h mem =
    Or.elim ⊥_prop (mem-cons.0 mem) (λ hit. absurd (ground (arith, hit_is_equal x there hit)))
      (λ further. not-mem_of_collected x others (ground arith) further)

-- A handle is appended unless it is there.
abbrev with_handle : HandleInfo → List HandleInfo → List HandleInfo
with_handle x l = if is_collected x l then l else l ++ x ∷ []

with_handle-Nodup : (x : HandleInfo) (l : List HandleInfo) → Nodup l → Nodup (with_handle x l)
with_handle-Nodup x l d = elim (Bool-cases (is_collected x l)) [
  | inl hit ↦ rw (hit) d
  | inr miss ↦
      rw (miss)
        (Perm.nodup (perm_append_comm (x ∷ []) l) (Nodup-cons.1 (not-mem_of_collected x l miss, d)))
]

mem_of_append :
    {xs l : List HandleInfo} {y : HandleInfo} → (Mem y xs → Mem y l) → Mem y (l ++ xs) → Mem y l
mem_of_append f m = Or.elim Mem-prop (mem-append.0 m) (λ here. here) f

mem-with_handle :
    (x y : HandleInfo) (l : List HandleInfo) → Mem y (with_handle x l) ↔ Mem y (l ++ x ∷ [])
mem-with_handle x y l = elim (Bool-cases (is_collected x l)) [
  | inl hit ↦ rw (hit) (
    mem-append_left (x ∷ []),
    mem_of_append (λ m.
        Or.elim Mem-prop (mem-cons.0 m)
          (λ e. subst (λ z. Mem z l) (sym e) (mem_of_collected x l hit))
          (λ n. absurd (not-mem-nil n))),
  )
  | inr miss ↦ rw (miss) ((λ m. m), (λ m. m))
]

mem-append_congr :
    {a b : List HandleInfo} (xs : List HandleInfo) {y : HandleInfo}
    → (Mem y a → Mem y b)
    → Mem y (a ++ xs)
    → Mem y (b ++ xs)
mem-append_congr xs f m = mem-append.1 (Or.imp f (λ n. n) (mem-append.0 m))

-- All the handles of a list, one after the other.
unfoldable pub collect_all : List HandleInfo → List HandleInfo → List HandleInfo
collect_all [] l = l
collect_all (x ∷ xs) l = collect_all xs (with_handle x l)

pub collect_all-Nodup : (xs l : List HandleInfo) → Nodup l → Nodup (collect_all xs l)
unfolding collect_all
collect_all-Nodup [] l d = d
collect_all-Nodup (x ∷ xs) l d = collect_all-Nodup xs (with_handle x l) (with_handle-Nodup x l d)

pub collect_all-All :
    (P : HandleInfo → Type 0) (xs l : List HandleInfo)
    → All P l
    → All P xs
    → All P (collect_all xs l)
unfolding collect_all
collect_all-All P [] l hl hxs = hl
collect_all-All P (x ∷ xs) l hl hxs =
    collect_all-All P xs (with_handle x l) (with_handle-All (Bool-cases (is_collected x l))) hxs.1
  where
    with_handle-All :
        (is_collected x l ≡ true) ⊎ (is_collected x l ≡ false) → All P (with_handle x l)
    with_handle-All (inl hit) = rw (hit) hl
    with_handle-All (inr miss) = rw (miss) (All-append P l (x ∷ []) hl (hxs.0, tt))

-- Nothing is lost by leaving out what is there.
pub mem-collect_all :
    (xs l : List HandleInfo) (y : HandleInfo) → Mem y (collect_all xs l) ↔ Mem y (l ++ xs)
unfolding collect_all
mem-collect_all [] l y = rw (append-nil l) ((λ m. m), (λ m. m))
mem-collect_all (x ∷ xs) l y =
    let (to, from) = mem-with_handle x y l in
    let (to', from') = mem-collect_all xs (with_handle x l) y in
    rw (sym (append_assoc l (x ∷ []) xs))
      ((λ m. mem-append_congr xs to (to' m)), (λ m. from' (mem-append_congr xs from m)))

pub collect_all-append :
    (xs ys l : List HandleInfo) → collect_all (xs ++ ys) l ≡ collect_all ys (collect_all xs l)
unfolding collect_all
collect_all-append [] ys l = refl
collect_all-append (x ∷ xs) ys l = collect_all-append xs ys (with_handle x l)

add_handles-collected :
    (ip : ℕ) (xs : List HandleInfo) (c : Collected)
    → (add_handles ip xs c).collected_handles ≡ collect_all xs c.collected_handles
unfolding collect_all add_handles
add_handles-collected ip [] c = refl
add_handles-collected ip (x ∷ xs) c = add_handles-collected ip xs (add_handle ip x c)

pub add_host-collected :
    (host : HostInfo) (xs : List HandleInfo) (c : Collected)
    → (add_host host xs c).collected_handles ≡ collect_all xs c.collected_handles
unfolding collect_all add_host
add_host-collected host [] c = refl
add_host-collected host (x ∷ xs) c = add_handles-collected host.ip (x ∷ xs) _

pub add_handles-responded :
    (ip : ℕ) (xs : List HandleInfo) (c : Collected)
    → (add_handles ip xs c).responded_hosts ≡ c.responded_hosts
unfolding add_handles
add_handles-responded ip [] c = refl
add_handles-responded ip (x ∷ xs) c = add_handles-responded ip xs (add_handle ip x c)

-- The host itself is listed if it has a handle.
abbrev pub if_any : HostInfo → List HandleInfo → List HostInfo
if_any host [] = []
if_any host (x ∷ xs) = host ∷ []

pub add_host-responded :
    (host : HostInfo) (xs : List HandleInfo) (c : Collected)
    → (add_host host xs c).responded_hosts ≡ c.responded_hosts ++ if_any host xs
unfolding add_host
add_host-responded host [] c = sym (append-nil c.responded_hosts)
add_host-responded host (x ∷ xs) c = add_handles-responded host.ip (x ∷ xs) _
