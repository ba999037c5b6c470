-- ===== src/Configuration/Accepted/Parsed.antt =====
-- When the list of services in the file is accepted.
use lsd.Common.{
  ℕ, zero, suc, ◌≡◌, ◌↔◌, refl, sym, ◌∙◌, subst, ap, List, [], ◌∷◌, ok, err, Result, Exec, Done,
}
use lsd.Common.Method.{◌>>=◌, ◌>>◌, lift}
use lsd.OrderedMap.Keys.{text_key}
use lsd.Hosts.{ServiceInfo}
use lsd.Json.{Json}
use lsd.Configuration.{Configuration}
use lsd.Configuration.Entry.{
  read_service, entry_of, read_entry, read_all, read_all-suc, of_read_all,
}
use lsd.Configuration.Services.{add_service, parse_each}
use lsd.Configuration.Listed.{IsListed}
use lsd.Configuration.Accepted.{
  next, add_all, of_next, to_next, IsAccepted, add_all-IsAccepted, IsAccepted-add_all,
}

-- One round of the loop: an entry that cannot be read ends it.
round : Result ServiceInfo → Exec Configuration (Unit {0}) → Exec Configuration (Unit {0})
round (ok si) rest c = next (add_service si c) rest
round (err f) rest c = (err f, c)

next_lem :
    (p : Done × Configuration) (rest : Exec Configuration (Unit {0}))
    → elim p.0 as (λ _. Done × Configuration) [ ok u ↦ rest p.1 | err f ↦ (err f, p.1) ]
      ≡ next p rest
unfolding next
next_lem (ok u, c) rest = refl
next_lem (err f, c) rest = refl

round_lem :
    (entry : Result ServiceInfo) (rest : Exec Configuration (Unit {0})) (c : Configuration)
    → (lift entry >>= λ si. add_service si >> rest) c ≡ round entry rest c
unfolding round
round_lem (ok si) rest c = next_lem (add_service si c) rest
round_lem (err f) rest c = refl

-- What a round that ends well has read, and that the rest ends well too.
of_round :
    (entry : Result ServiceInfo) (rest : Exec Configuration (Unit {0})) (c : Configuration)
    → (round entry rest c).0 ≡ ok tt
    → (si : ServiceInfo) × (entry ≡ ok si) × ((next (add_service si c) rest).0 ≡ ok tt)
unfolding round
of_round (ok si) rest c e = (si, refl, e)
of_round (err f) rest c e = cc

module _ (j : Json) where
  entry_lem :
      (r : Result j.Value) (rest : Exec Configuration (Unit {0})) (c : Configuration)
      → (lift r >>= λ v. lift (read_service j v) >>= λ si. add_service si >> rest) c
        ≡ round (entry_of j r) rest c
  unfolding entry_of round
  entry_lem (ok v) rest c = round_lem (read_service j v) rest c
  entry_lem (err f) rest c = refl

  parse_each_lem :
      (left index : ℕ) (services : j.Value) (c : Configuration)
      → parse_each j (suc left) index services c
        ≡ round (read_entry j services index) (parse_each j left (suc index) services) c
  unfolding parse_each read_entry
  parse_each_lem left index services =
      entry_lem (j.element services index) (parse_each j left (suc index) services)

  -- Whatever is read is added.
  read_of_ok :
      (left index : ℕ) (services : j.Value) (c : Configuration)
      → (parse_each j left index services c).0 ≡ ok tt
      → (infos : List ServiceInfo) × (read_all j left index services ≡ ok infos)
        × ((add_all infos c).0 ≡ ok tt)
  unfolding parse_each read_all add_all
  read_of_ok zero index services c e = ([], refl, refl)
  read_of_ok (suc left) index services c e =
      let rest = parse_each j left (suc index) services in
      let (si, is_si, good) =
        of_round (read_entry j services index) rest c (
          sym (ap (λ (p : Done × Configuration). p.0) (parse_each_lem left index services c))
          ∙ e) in
      let (good', end) = of_next (add_service si c) rest good in
      let (infos, is_infos, added) =
        read_of_ok left (suc index) services (add_service si c).1 end in
      (
        si ∷ infos,
        read_all-suc j left index services is_si is_infos,
        to_next (add_service si c) (add_all infos) good' added,
      )

  -- Whatever can be read and added is.
  ok_of_read :
      (left index : ℕ) (services : j.Value) (c : Configuration) (infos : List ServiceInfo)
      → read_all j left index services ≡ ok infos
      → (add_all infos c).0 ≡ ok tt
      → (parse_each j left index services c).0 ≡ ok tt
  unfolding parse_each next add_all round
  ok_of_read zero index services c infos is_infos e = refl
  ok_of_read (suc left) index services c infos is_infos e =
      let (si, rest, is_si, is_rest, is_list) = of_read_all j left index services infos is_infos in
      let more = parse_each j left (suc index) services in
      let (good, end) =
        of_next (add_service si c) (add_all rest)
          (subst (λ l. (add_all l c).0 ≡ ok tt) is_list e) in
      ap (λ (p : Done × Configuration). p.0) (parse_each_lem left index services c)
      ∙ ap (λ r. (round r more c).0) is_si
      ∙ to_next (add_service si c) more good
          (ok_of_read left (suc index) services (add_service si c).1 rest is_rest end)

  -- If the listed services are complete, each under its own name and in order, then the loop over the
  -- entries from `index` on ends without a throw exactly if all can be read, as services that are
  -- complete and among which, and those listed before, no name stands twice.
  pub parse_each-ok_iff :
      (left index : ℕ) (services : j.Value) (c : Configuration)
      → IsListed c.services_list
      → ((parse_each j left index services c).0 ≡ ok tt) ↔ (
          (infos : List ServiceInfo) × (read_all j left index services ≡ ok infos)
          × IsAccepted infos c.services_list)
  parse_each-ok_iff left index services c h = (
    (λ e.
        let (infos, is_infos, added) = read_of_ok left index services c e in
        (infos, is_infos, add_all-IsAccepted infos c h added)),
    (λ (infos, is_infos, a).
        ok_of_read left index services c infos is_infos (IsAccepted-add_all infos c h a)),
  )
