-- ===== src/Configuration/Accepted.antt =====
-- Which lists of services are accepted.
pub mod Parsed
use mathlib.Core.List.{perm_middle, Nodup, Nodup-cons, Perm, Mem, mem-append_right}
use mathlib.Core.List.Perm
use lsd.Common.{
  ℕ, zero, suc, String, ◌≡◌, ◌≢◌, ◌↔◌, refl, sym, ◌∙◌, subst, ap, arith, Bool, true, false, List,
  [], ◌∷◌, ◌++◌, ok, err, Result, throw, Exec, Bool-cases, inl, inr, if◌then◌else◌, All, map,
  str_eq, str_eq_iff, none, some, Done, Result-cases, Option-cases,
}
use lsd.Common.Method.{◌>>=◌, ◌>>◌, lift}
use lsd.OrderedMap.{Map, same, find, assign, keys}
use lsd.OrderedMap.Keys.{text_key}
use lsd.OrderedMap.Lookup.{same-eq, same_of_eq}
use lsd.OrderedMap.Contents.{keys-assign_perm}
use lsd.OrderedMap.Membership.{mem-keys, not-mem-keys, keys-Nodup}
use lsd.Hosts.{ServiceInfo}
use lsd.Json.{Json}
use lsd.Configuration.{Configuration}
use lsd.Configuration.Entry.{
  read_service, entry_of, read_entry, read_all, read_all-suc, of_read_all,
}
use lsd.Configuration.Services.{has_missing_field, has_same_name, add_service, parse_each}
use lsd.Configuration.Listed.{IsNamed, IsListed, add_service_lem, add_service-IsListed}

-- The loop over the list looks for the key.
find-has_same_name :
    (si : ServiceInfo) (m : Map String ServiceInfo)
    → IsNamed m
    → has_same_name si m ≡ elim (find si.name m) as (λ _. Bool) [ none ↦ false | some v ↦ true ]
unfolding has_same_name find
find-has_same_name si [] h = refl
find-has_same_name si ((name, listed) ∷ m) h = ground (
  arith,
  str_eq_iff listed.name si.name,
  same-eq si.name name,
  same_of_eq si.name name,
  find-has_same_name si m h.2,
)

pub next : Done × Configuration → Exec Configuration (Unit {0}) → Done × Configuration
next (ok u, c) rest = rest c
next (err f, c) rest = (err f, c)

-- The entries, once read, are added one after the other.
pub add_all : List ServiceInfo → Exec Configuration (Unit {0})
add_all [] c = (ok tt, c)
add_all (si ∷ rest) c = next (add_service si c) (add_all rest)

abbrev name_of : ServiceInfo → String
name_of si = si.name

abbrev IsComplete : ServiceInfo → Type 0
IsComplete si = has_missing_field si ≡ false

-- Every service is complete, and no name stands twice among them and those that are listed.
pub record IsAccepted (infos : List ServiceInfo) (m : Map String ServiceInfo) : Type 0 where
  pub complete : All IsComplete infos
  pub distinct : Nodup (map name_of infos ++ keys m)

abbrev added : ServiceInfo → Configuration → Configuration
added si c = record c { services_list = assign si.name si c.services_list }

-- A complete service of a new name is added.
add_service-added :
    (si : ServiceInfo) (c : Configuration)
    → IsNamed c.services_list
    → IsComplete si
    → find si.name c.services_list ≡ none
    → add_service si c ≡ (ok tt, added si c)
add_service-added si c h complete fresh =
    rw (add_service_lem si c, complete, find-has_same_name si c.services_list h, fresh) refl

-- Nothing else is added.
of_added :
    (si : ServiceInfo) (c : Configuration)
    → IsNamed c.services_list
    → (add_service si c).0 ≡ ok tt
    → IsComplete si × (find si.name c.services_list ≡ none)
of_added si c h good = ground (
  arith,
  ap (λ (p : Done × Configuration). p.0) (add_service_lem si c),
  find-has_same_name si c.services_list h,
)

names_move :
    (si : ServiceInfo) (rest : List ServiceInfo) (m : Map String ServiceInfo)
    → find si.name m ≡ none
    → Perm (map name_of rest ++ keys (assign si.name si m)) (si.name ∷ (map name_of rest ++ keys m))
names_move si rest m fresh =
    Perm.trans (Perm.append_left (map name_of rest) (keys-assign_perm si.name si m fresh))
      (perm_middle (map name_of rest) (keys m))

distinct_of_fresh :
    (si : ServiceInfo) (rest : List ServiceInfo) (m : Map String ServiceInfo)
    → find si.name m ≡ none
    → Nodup (map name_of rest ++ keys (assign si.name si m))
    → Nodup (map name_of (si ∷ rest) ++ keys m)
distinct_of_fresh si rest m fresh d = Perm.nodup (names_move si rest m fresh) d

fresh_of_distinct :
    (si : ServiceInfo) (rest : List ServiceInfo) (m : Map String ServiceInfo)
    → Nodup (map name_of (si ∷ rest) ++ keys m)
    → find si.name m ≡ none
fresh_of_distinct si rest m d = elim (Option-cases (find si.name m)) [
  | inl missing ↦ missing
  | inr (v, there) ↦
      absurd ((Nodup-cons.0 d).0 (mem-append_right (map name_of rest) (mem-keys si.name v m there)))
]

-- The rest of the list, once its first service was added.
after_added :
    (si : ServiceInfo) (rest : List ServiceInfo) (c : Configuration)
    → add_service si c ≡ (ok tt, added si c)
    → add_all (si ∷ rest) c ≡ add_all rest (added si c)
unfolding add_all next
after_added si rest c e = ap (λ (p : Done × Configuration). next p (add_all rest)) e

pub of_next :
    (p : Done × Configuration) (rest : Exec Configuration (Unit {0}))
    → (next p rest).0 ≡ ok tt
    → (p.0 ≡ ok tt) × ((rest p.1).0 ≡ ok tt)
unfolding next
of_next (ok tt, c) rest e = (refl, e)
of_next (err f, c) rest e = cc

added-IsListed :
    (si : ServiceInfo) (c : Configuration)
    → IsListed c.services_list
    → add_service si c ≡ (ok tt, added si c)
    → IsListed (added si c).services_list
added-IsListed si c h e =
    subst (λ (p : Done × Configuration). IsListed p.1.services_list) e (add_service-IsListed si c h)

pub add_all-IsAccepted :
    (infos : List ServiceInfo) (c : Configuration)
    → IsListed c.services_list
    → (add_all infos c).0 ≡ ok tt
    → IsAccepted infos c.services_list
unfolding add_all
add_all-IsAccepted [] c h e = record {
  complete = tt;
  distinct = keys-Nodup c.services_list h.sorted;
}
add_all-IsAccepted (si ∷ rest) c h e =
    let (complete, fresh) = of_added si c h.named (of_next (add_service si c) (add_all rest) e).0 in
    let e' = add_service-added si c h.named complete fresh in
    let ih =
      add_all-IsAccepted rest (added si c) (added-IsListed si c h e')
        (sym (ap (λ (p : Done × Configuration). p.0) (after_added si rest c e')) ∙ e) in
    record {
      complete = (complete, ih.complete);
      distinct = distinct_of_fresh si rest c.services_list fresh ih.distinct;
    }

pub IsAccepted-add_all :
    (infos : List ServiceInfo) (c : Configuration)
    → IsListed c.services_list
    → IsAccepted infos c.services_list
    → (add_all infos c).0 ≡ ok tt
unfolding add_all
IsAccepted-add_all [] c h a = refl
IsAccepted-add_all (si ∷ rest) c h a =
    let fresh = fresh_of_distinct si rest c.services_list a.distinct in
    let e = add_service-added si c h.named a.complete.0 fresh in
    ap (λ (p : Done × Configuration). p.0) (after_added si rest c e)
    ∙ IsAccepted-add_all rest (added si c) (added-IsListed si c h e) (record {
      complete = a.complete.1;
      distinct = Perm.nodup (Perm.symm (names_move si rest c.services_list fresh)) a.distinct;
    })

pub to_next :
    (p : Done × Configuration) (rest : Exec Configuration (Unit {0}))
    → p.0 ≡ ok tt
    → (rest p.1).0 ≡ ok tt
    → (next p rest).0 ≡ ok tt
unfolding next
to_next (ok tt, c) rest e e' = e'
to_next (err f, c) rest e e' = cc
