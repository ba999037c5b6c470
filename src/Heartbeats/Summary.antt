-- ===== src/Heartbeats/Summary.antt =====
-- What the loop over the hosts leaves, by what the hosts have answered.
use mathlib.Core.List.{Nodup, Nodup-nil, Mem, append-nil, append_assoc}
use lsd.Common.{
  ℕ, suc, ◌≡◌, ◌↔◌, refl, sym, ◌∙◌, ap, subst, List, [], ◌∷◌, ◌++◌, Result, ok, ok-inj,
}
use lsd.Common.Attempt.{◌>>=◌, >>=-eq-ok}
use lsd.Hosts.{Resolver, HostInfo, HandleInfo, ServiceInfo}
use lsd.Json.{Json}
use lsd.Configuration.{Texts}
use lsd.Heartbeats.Pings.{
  Collected, Network, nothing_collected, host_handles, add_host, collect_from,
}
use lsd.Heartbeats.Membership.{
  collect_all, collect_all-Nodup, mem-collect_all, collect_all-append, add_host-collected,
  add_host-responded, if_any,
}

-- A host, and the handles that it told.
abbrev pub Answers : Type 0
Answers = List (HostInfo × List HandleInfo)

abbrev pub told_handles : Answers → List HandleInfo
told_handles [] = []
told_handles ((host, handles) ∷ rest) = handles ++ told_handles rest

abbrev pub alive_hosts : Answers → List HostInfo
alive_hosts [] = []
alive_hosts ((host, handles) ∷ rest) = if_any host handles ++ alive_hosts rest

-- The hosts are those that told a handle, in order. The handles are those that were told, by whichever
-- host, and each stands there once.
pub record IsSummary (answers : Answers) (c : Collected) : Type 0 where
  pub hosts : c.responded_hosts ≡ alive_hosts answers
  pub once : Nodup c.collected_handles
  pub told : (x : HandleInfo) → Mem x c.collected_handles ↔ Mem x (told_handles answers)

module _ (j : Json) (texts : Texts) (r : Resolver) (network : Network) (s_info : ServiceInfo) where
  -- The hosts are asked, and nothing else is done.
  unfoldable pub answers_from : ℕ → List HostInfo → Result Answers
  answers_from i [] = ok []
  answers_from i (host ∷ hosts) = do
    handles ← host_handles j texts r network s_info i host
    rest ← answers_from (suc i) hosts
    ok ((host, handles) ∷ rest)

  answers_from-cons :
      (i : ℕ) (host : HostInfo) (hosts : List HostInfo) {handles : List HandleInfo} {rest : Answers}
      → host_handles j texts r network s_info i host ≡ ok handles
      → answers_from (suc i) hosts ≡ ok rest
      → answers_from i (host ∷ hosts) ≡ ok ((host, handles) ∷ rest)
  unfolding answers_from
  answers_from-cons i host hosts is_handles is_rest = rw (is_handles, is_rest) refl

  pub collect_from_lem :
      (i : ℕ) (hosts : List HostInfo) (c : Collected) {c' : Collected}
      → collect_from j texts r network s_info i hosts c ≡ ok c'
      → (answers : Answers) × (answers_from i hosts ≡ ok answers)
        × (c'.responded_hosts ≡ c.responded_hosts ++ alive_hosts answers)
        × (c'.collected_handles ≡ collect_all (told_handles answers) c.collected_handles)
  unfolding collect_from answers_from collect_all
  collect_from_lem i [] c e =
      let same = ok-inj e in
      (
        [],
        refl,
        sym (ap Collected.responded_hosts same) ∙ sym (append-nil c.responded_hosts),
        sym (ap Collected.collected_handles same),
      )
  collect_from_lem i (host ∷ hosts) c e =
      let (handles, is_handles, e') =
        >>=-eq-ok (host_handles j texts r network s_info i host) _ e in
      let next = add_host host handles c in
      let (rest, is_rest, responded, collected) = collect_from_lem (suc i) hosts next e' in
      (
        (host, handles) ∷ rest,
        answers_from-cons i host hosts is_handles is_rest,
        responded
            ∙ ap (λ l. l ++ alive_hosts rest) (add_host-responded host handles c)
            ∙ append_assoc c.responded_hosts (if_any host handles) (alive_hosts rest),
        collected
            ∙ ap (collect_all (told_handles rest)) (add_host-collected host handles c)
            ∙ sym (collect_all-append handles (told_handles rest) c.collected_handles),
      )

  -- If the loop over the hosts ends without an exception, then every host was asked, and the hosts
  -- that told a handle are listed in order, and the handles that were told, by whichever host, each
  -- once.
  pub collect_from-IsSummary :
      (hosts : List HostInfo) (c : Collected)
      → collect_from j texts r network s_info 0 hosts nothing_collected ≡ ok c
      → (answers : Answers) × (answers_from 0 hosts ≡ ok answers) × IsSummary answers c
  collect_from-IsSummary hosts c e =
      let (answers, is_answers, responded, collected) =
        collect_from_lem 0 hosts nothing_collected e in
      (
        answers,
        is_answers,
        record {
          hosts = responded;
          once =
              subst (λ l. Nodup l) (sym collected)
                (collect_all-Nodup (told_handles answers) [] Nodup-nil);
          told = λ x.
              subst (λ l. Mem x l ↔ Mem x (told_handles answers)) (sym collected)
                (mem-collect_all (told_handles answers) [] x);
        },
      )
