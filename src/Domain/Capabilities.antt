-- ===== src/Domain/Capabilities.antt =====
-- backend/src/kontur/domain/capabilities.py: which engines work, and whether the kit can compare.
use kontur.Prelude.{
  ◌≡◌, ◌≢◌, refl, ◌∙◌, inl, inr, Bool, true, false, ◌&&◌, Option, none, some, String, List, [], ◌∷◌,
  any, Result, ok, err, ◌>>=◌, ◌==◌, if◌then◌else◌, Bool-cases, arith,
}
use kontur.Prelude.{String_eq}

abbrev affects_verdict_names : List String
affects_verdict_names = "vector_text" ∷ "ocr_text" ∷ "ocr_tables" ∷ "drawing_analysis" ∷ []

abbrev advisory_only : List String
advisory_only = "llm_advisory" ∷ []

abbrev known_engines : List String
known_engines = "vector_text" ∷ "ocr_text" ∷ "ocr_tables" ∷ "drawing_analysis" ∷ "llm_advisory" ∷ []

data CapStatus : Type 0 where
  available : CapStatus
  degraded : CapStatus
  measured : CapStatus
  unavailable : CapStatus

record Capability : Type 0 where
  name : String
  status : CapStatus
  affects_verdict : Bool

data CapabilityError : Type 0 where
  unknown_capability : String → CapabilityError

unfoldable describe : String → CapStatus → Result CapabilityError Capability
describe name status =
    if any (λ n. n == name) advisory_only
    then ok (record { name = name; status = status; affects_verdict = false })
    else if any (λ n. n == name) affects_verdict_names
    then ok (record { name = name; status = status; affects_verdict = true })
    else err (unknown_capability name)

abbrev is_unavailable : CapStatus → Bool
is_unavailable unavailable = true
is_unavailable _ = false

abbrev is_reduced : CapStatus → Bool
is_reduced degraded = true
is_reduced measured = true
is_reduced _ = false

unfoldable kit_blocked : List Capability → Bool
kit_blocked caps = any (λ item. item.affects_verdict && is_unavailable item.status) caps

unfoldable kit_degraded : List Capability → Bool
kit_degraded caps = any (λ item. item.affects_verdict && is_reduced item.status) caps

unfoldable overall_kit_status : List Capability → CapStatus
unfolding kit_blocked kit_degraded
overall_kit_status caps =
    if kit_blocked caps then unavailable else if kit_degraded caps then degraded else available

-- `by_name.get(name)`: of two items with a name the later one counts.
abbrev later_or : Option Capability → Bool → Capability → Option Capability
later_or (some later) here item = some later
later_or none true item = some item
later_or none false item = none

abbrev by_name : String → List Capability → Option Capability
by_name name [] = none
by_name name (item ∷ items) = later_or (by_name name items) (item.name == name) item

record HealthSummary : Type 0 where
  healthy : List String
  degraded_ones : List String
  measured_ones : List String
  failed_ones : List String
  skipped : List String

abbrev put_unavailable : String → Bool → HealthSummary → HealthSummary
put_unavailable name true s = record s { failed_ones = name ∷ s.failed_ones }
put_unavailable name false s = record s { skipped = name ∷ s.skipped }

abbrev put_by_status : String → CapStatus → Bool → HealthSummary → HealthSummary
put_by_status name available affects s = record s { healthy = name ∷ s.healthy }
put_by_status name degraded affects s = record s { degraded_ones = name ∷ s.degraded_ones }
put_by_status name measured affects s = record s { measured_ones = name ∷ s.measured_ones }
put_by_status name unavailable affects s = put_unavailable name affects s

abbrev put_engine : String → Option Capability → HealthSummary → HealthSummary
put_engine name none s = record s { skipped = name ∷ s.skipped }
put_engine name (some item) s = put_by_status name item.status item.affects_verdict s

abbrev summary_of : List Capability → List String → HealthSummary
summary_of caps [] = record {
  healthy = [];
  degraded_ones = [];
  measured_ones = [];
  failed_ones = [];
  skipped = [];
}
summary_of caps (name ∷ names) = put_engine name (by_name name caps) (summary_of caps names)

unfoldable engine_health_summary : List Capability → HealthSummary
engine_health_summary caps = summary_of caps known_engines

unfoldable live_kit : Result CapabilityError (List Capability)
unfolding describe
live_kit = do text ← describe "vector_text" available; ok (text ∷ [])

unfoldable declared_capabilities : Result CapabilityError (List Capability)
unfolding describe
declared_capabilities = do
  text ← describe "vector_text" available
  ocr ← describe "ocr_text" measured
  tables ← describe "ocr_tables" unavailable
  drawing ← describe "drawing_analysis" degraded
  llm ← describe "llm_advisory" unavailable
  ok (text ∷ ocr ∷ tables ∷ drawing ∷ llm ∷ [])

-- The item, if there is one, does not block the kit.
abbrev IsFree : Option Capability → Type 0
IsFree none = Unit
IsFree (some item) = (item.affects_verdict && is_unavailable item.status) ≡ false

later_or-IsFree :
    (later : Option Capability) (here : Bool) (item : Capability)
    → IsFree later
    → IsFree (some item)
    → IsFree (later_or later here item)
later_or-IsFree none true item h h' = h'
later_or-IsFree none false item h h' = tt
later_or-IsFree (some later) here item h h' = h

by_name-IsFree :
    (name : String) (caps : List Capability) → kit_blocked caps ≡ false → IsFree (by_name name caps)
unfolding kit_blocked
by_name-IsFree name [] free = tt
by_name-IsFree name (item ∷ caps) free =
    later_or-IsFree (by_name name caps) (item.name == name) item
      (by_name-IsFree name caps (ground (arith, free))) (ground (arith, free))

put_by_status-failed :
    (name : String) (status : CapStatus) (affects : Bool) (s : HealthSummary)
    → (affects && is_unavailable status) ≡ false
    → (put_by_status name status affects s).failed_ones ≡ s.failed_ones
put_by_status-failed name available affects s h = refl
put_by_status-failed name degraded affects s h = refl
put_by_status-failed name measured affects s h = refl
put_by_status-failed name unavailable true s h = ground (arith, h)
put_by_status-failed name unavailable false s h = refl

put_engine-failed :
    (name : String) (o : Option Capability) (s : HealthSummary)
    → IsFree o
    → (put_engine name o s).failed_ones ≡ s.failed_ones
put_engine-failed name none s h = refl
put_engine-failed name (some item) s h =
    put_by_status-failed name item.status item.affects_verdict s h

summary_of-failed :
    (caps : List Capability) (names : List String)
    → kit_blocked caps ≡ false
    → (summary_of caps names).failed_ones ≡ []
summary_of-failed caps [] free = refl
summary_of-failed caps (name ∷ names) free =
    put_engine-failed name (by_name name caps) (summary_of caps names)
      (by_name-IsFree name caps free)
    ∙ summary_of-failed caps names free

-- Where the status of the kit is not UNAVAILABLE, no known engine stands among the failed ones.
engine_health_summary-failed :
    (caps : List Capability)
    → overall_kit_status caps ≢ unavailable
    → (engine_health_summary caps).failed_ones ≡ []
unfolding engine_health_summary overall_kit_status
engine_health_summary-failed caps h = elim (Bool-cases (kit_blocked caps)) [
  | inl e ↦ elim (h (rw e refl)) [ ]
  | inr e ↦ summary_of-failed caps known_engines e
]

declared_runs :
    (d : List Capability) × (declared_capabilities ≡ ok d)
    × (kit_blocked d ≡ true)
    × ((engine_health_summary d).failed_ones ≡ "ocr_tables" ∷ [])
unfolding declared_capabilities describe kit_blocked engine_health_summary
declared_runs = (_, refl, refl, refl)

live_runs : (d : List Capability) × (live_kit ≡ ok d) × (overall_kit_status d ≡ available)
unfolding live_kit describe kit_blocked kit_degraded overall_kit_status
live_runs = (_, refl, refl)
