-- ===== src/Pipeline/Cascade.antt =====
-- What the cascade of stages ends with.
use kontur.Prelude.{◌⊎◌}
use kontur.Prelude.{
  ◌≤◌, ◌≡◌, refl, sym, ap, ◌∙◌, ◌↔◌, inl, inr, Bool, true, false, not, ◌||◌, Option, none, some,
  is_some, List, [], ◌∷◌, is_empty, all, select, find, All, ok, ◌>>◌, raise_if, >>=-eq-ok, elem,
  leb, nat_eq, if◌then◌else◌, Bool-cases, Option-cases, arith,
}
use mathlib.Core.Path.{subst}
use kontur.Domain.Status.{FindingStatus, FindingStatus_eq, human_only_statuses}
use kontur.Pipeline.{
  Stage, stage_number, stage_failure_status, required_precomparison_stages, intake_is_rejected,
  missing_stages, StageResult, admitted, ended, halt_status, insert_stage, sort_stages, is_present,
  halted, first_failure, run,
}

module _ {ℓ} (P : StageResult → Type ℓ) where
  All-insert_stage :
      (r : StageResult) (ss : List StageResult) → P r → All P ss → All P (insert_stage r ss)
  All-insert_stage r [] h hs = (h, tt)
  All-insert_stage r (s ∷ ss) h hs =
      elim (leb (stage_number r.stage) (stage_number s.stage))
        as (λ b. All P (if b then r ∷ s ∷ ss else s ∷ insert_stage r ss)) [
          | true ↦ (h, hs)
          | false ↦ (hs.0, All-insert_stage r ss h hs.1)
        ]

  All-of-insert_stage :
      (r : StageResult) (ss : List StageResult) → All P (insert_stage r ss) → P r × All P ss
  All-of-insert_stage r [] h = (h.0, tt)
  All-of-insert_stage r (s ∷ ss) h =
      (elim (leb (stage_number r.stage) (stage_number s.stage))
          as (λ b. All P (if b then r ∷ s ∷ ss else s ∷ insert_stage r ss) → P r × All P (s ∷ ss)) [
            | true ↦ λ h. (h.0, h.1)
            | false ↦ λ h. let (one, rest) = All-of-insert_stage r ss h.1 in (one, (h.0, rest))
          ])
        h

  All-of-sort_stages : (rs : List StageResult) → All P (sort_stages rs) → All P rs
  All-of-sort_stages [] h = tt
  All-of-sort_stages (r ∷ rs) h =
      let (one, rest) = All-of-insert_stage r (sort_stages rs) h in
      (one, All-of-sort_stages rs rest)

abbrev Behind : StageResult → List StageResult → Type 0
Behind r = All (λ s. stage_number r.stage ≤ stage_number s.stage)

abbrev IsAscending : List StageResult → Type 0
IsAscending [] = Unit
IsAscending (r ∷ rs) = Behind r rs × IsAscending rs

Behind-trans :
    (r s : StageResult) (ss : List StageResult)
    → stage_number r.stage ≤ stage_number s.stage
    → Behind s ss
    → Behind r ss
Behind-trans r s [] h hs = tt
Behind-trans r s (q ∷ qs) h hs = (omega (arith, h, hs.0), Behind-trans r s qs h hs.1)

insert_stage-IsAscending :
    (r : StageResult) (ss : List StageResult) → IsAscending ss → IsAscending (insert_stage r ss)
insert_stage-IsAscending r [] h = (tt, tt)
insert_stage-IsAscending r (s ∷ ss) h =
    elim (Bool-cases (leb (stage_number r.stage) (stage_number s.stage))) [
      | inl e ↦
          let below : stage_number r.stage ≤ stage_number s.stage = ground (arith, e) in
          rw e ((below, Behind-trans r s ss below h.0), h)
      | inr e ↦
          rw e (All-insert_stage _ r ss (ground (arith, e)) h.0, insert_stage-IsAscending r ss h.1)
    ]

sort_stages-IsAscending : (rs : List StageResult) → IsAscending (sort_stages rs)
sort_stages-IsAscending [] = tt
sort_stages-IsAscending (r ∷ rs) =
    insert_stage-IsAscending r (sort_stages rs) (sort_stages-IsAscending rs)

-- No failure of the list is at an earlier stage.
abbrev pub IsEarliest : StageResult → List StageResult → Type 0
IsEarliest r = All (λ s. (s.ok ≡ true) ⊎ (stage_number r.stage ≤ stage_number s.stage))

weaken : (r : StageResult) (ss : List StageResult) → Behind r ss → IsEarliest r ss
weaken r [] h = tt
weaken r (s ∷ ss) h = (inr h.0, weaken r ss h.1)

find-IsEarliest :
    (rs : List StageResult) {r : StageResult}
    → IsAscending rs
    → find (λ r. not r.ok) rs ≡ some r
    → (r.ok ≡ false) × IsEarliest r rs
find-IsEarliest [] up h = cc
find-IsEarliest (s ∷ ss) {r} up h = elim (Bool-cases s.ok) [
  | inl e ↦
      let later : find (λ r. not r.ok) ss ≡ some r = ground (arith, h, e) in
      let (failed, earliest) = find-IsEarliest ss up.1 later in (failed, (inl e, earliest))
  | inr e ↦
      let same : s ≡ r = ground (arith, h, e) in
      subst (λ r. (r.ok ≡ false) × IsEarliest r (s ∷ ss)) same
        (e, (inr (omega arith), weaken s ss up.0))
]

first_failure-IsEarliest :
    (stages : List StageResult) {r : StageResult}
    → first_failure stages ≡ some r
    → (r.ok ≡ false) × IsEarliest r stages
first_failure-IsEarliest stages {r} h =
    let (failed, earliest) =
      find-IsEarliest (sort_stages stages) (sort_stages-IsAscending stages) h in
    (failed, All-of-sort_stages _ stages earliest)

is_some-find-insert :
    (r : StageResult) (ss : List StageResult)
    → is_some (find (λ r. not r.ok) (insert_stage r ss))
      ≡ (not r.ok || is_some (find (λ r. not r.ok) ss))
is_some-find-insert r [] = ground arith
is_some-find-insert r (s ∷ ss) =
    elim (leb (stage_number r.stage) (stage_number s.stage))
      as (λ b.
        is_some (find (λ r. not r.ok) (if b then r ∷ s ∷ ss else s ∷ insert_stage r ss))
        ≡ (not r.ok || is_some (find (λ r. not r.ok) (s ∷ ss)))) [
          | true ↦ by_results r.ok (find (λ r. not r.ok) (s ∷ ss))
          | false ↦ passed s.ok r.ok _ _ (is_some-find-insert r ss)
        ]
  where
    by_results :
        (b : Bool) (o : Option StageResult)
        → is_some (if not b then some r else o) ≡ (not b || is_some o)
    by_results b o = ground arith

    passed :
        (b c : Bool) (o o' : Option StageResult)
        → is_some o ≡ (not c || is_some o')
        → is_some (if not b then some s else o) ≡ (not c || is_some (if not b then some s else o'))
    passed b c o o' h = ground (arith, h)

is_some-first_failure :
    (stages : List StageResult) → is_some (first_failure stages) ≡ not (all (λ r. r.ok) stages)
is_some-first_failure [] = refl
is_some-first_failure (r ∷ rs) =
    ground (arith, is_some-find-insert r (sort_stages rs), is_some-first_failure rs)

halt_status_lem :
    (stage : Stage) {s : FindingStatus}
    → halt_status stage ≡ ok s
    → stage_failure_status stage ≡ some s
unfolding halt_status
halt_status_lem stage {s} h = ground (arith, h)

is_empty-select-not :
    {A : Type 0} (p : A → Bool) (xs : List A) → is_empty (select (λ x. not (p x)) xs) ≡ all p xs
is_empty-select-not p [] = refl
is_empty-select-not p (x ∷ xs) = ground (arith, is_empty-select-not p xs)

admitted_iff :
    (stages : List StageResult)
    → (admitted stages ≡ ok none) ↔ (all (is_present stages) required_precomparison_stages ≡ true)
admitted_iff stages =
    subst (λ b. (admitted stages ≡ ok none) ↔ (b ≡ true))
      (is_empty-select-not (is_present stages) required_precomparison_stages)
      (by_test (select (λ s. not (is_present stages s)) required_precomparison_stages))
  where
    by_test :
        (missing : List Stage)
        → (◌>>◌ {B = Option FindingStatus}
              (raise_if (not (is_empty missing)) (missing_stages missing))
              (ok none)
            ≡ ok none)
          ↔ (is_empty missing ≡ true)
    by_test missing = ground arith

halted_lem :
    (r : StageResult) {o : Option FindingStatus}
    → halted r ≡ ok o
    → (s : FindingStatus) × (o ≡ some s)
      × (elem s human_only_statuses ≡ false)
      × (1 ≤ stage_number r.stage)
      × (some s ≡ elim r.status [ some t ↦ some t | none ↦ stage_failure_status r.stage ])
unfolding halted
halted_lem r {o} h =
    let (u, positive, h1) =
      >>=-eq-ok (raise_if (nat_eq (stage_number r.stage) 0) intake_is_rejected) _ h in
    let (s, at_status, h2) =
      >>=-eq-ok (elim r.status [ some s ↦ ok s | none ↦ halt_status r.stage ]) _ h1 in
    let not_human : elem s human_only_statuses ≡ false = ground (arith, h2) in
    (
      s,
      ground (arith, h2, not_human),
      not_human,
      ground (arith, positive),
      ground (arith, at_status, halt_status_lem r.stage {s = s}),
    )

halted_is_some : (r : StageResult) → halted r ≡ ok none → ⊥
halted_is_some r h =
    let (s, impossible, not_human, not_intake, at_status) = halted_lem r h in
    ground (arith, impossible)

admitted_is_none :
    (stages : List StageResult) {s : FindingStatus} → admitted stages ≡ ok (some s) → ⊥
admitted_is_none stages {s} h =
    by_test (select (λ s. not (is_present stages s)) required_precomparison_stages) h
  where
    by_test :
        (missing : List Stage)
        → (◌>>◌ {B = Option FindingStatus}
              (raise_if (not (is_empty missing)) (missing_stages missing))
              (ok none)
            ≡ ok (some s))
        → ⊥
    by_test missing h = ground (arith, h)

-- The cascade lets a rule go on to the comparison exactly if every stage that was run has succeeded and
-- each of the seven stages before it was run.
pub run-none_iff :
    (stages : List StageResult)
    → (run stages ≡ ok none) ↔ (
        (all (λ r. r.ok) stages ≡ true)
        × (all (is_present stages) required_precomparison_stages ≡ true))
unfolding run
run-none_iff stages = elim (Option-cases (first_failure stages)) [
  | inl e ↦
      let none_failed : all (λ r. r.ok) stages ≡ true =
        ground (arith, e, is_some-first_failure stages) in
      let (there, back) = admitted_iff stages in
      (
        (λ h. (none_failed, there (sym (ap (ended stages) e) ∙ h))),
        (λ h. ap (ended stages) e ∙ back h.1),
      )
  | inr (r, e) ↦
      let some_failed : all (λ r. r.ok) stages ≡ false =
        ground (arith, e, is_some-first_failure stages) in
      (
        (λ h. absurd (halted_is_some r (sym (ap (ended stages) e) ∙ h))),
        (λ h. absurd (ground (arith, some_failed, h.0))),
      )
]

-- A status that ends the cascade is that of a stage that has failed, none earlier having failed, which
-- is not the intake: the one that the stage reports, or else the one that it fails with. It is never a
-- verdict of the inspector.
pub run_of_failure :
    (stages : List StageResult) {s : FindingStatus}
    → run stages ≡ ok (some s)
    → (r : StageResult) × (r.ok ≡ false)
      × IsEarliest r stages
      × (1 ≤ stage_number r.stage)
      × (some s ≡ elim r.status [ some t ↦ some t | none ↦ stage_failure_status r.stage ])
      × (elem s human_only_statuses ≡ false)
unfolding run
run_of_failure stages {s} h = elim (Option-cases (first_failure stages)) [
  | inl e ↦ absurd (admitted_is_none stages (sym (ap (ended stages) e) ∙ h))
  | inr (r, e) ↦
      let (failed, earliest) = first_failure-IsEarliest stages e in
      let (t, same, not_human, not_intake, at_status) =
        halted_lem r (sym (ap (ended stages) e) ∙ h) in
      (r, failed, earliest, not_intake, same ∙ at_status, ground (arith, same, not_human))
]
