-- ===== src/Examples.antt =====
-- The theorems at work on small inputs, and runs of the definitions.
mod Machines
mod Reviews
mod Protocols
mod Deliveries
mod Policies
mod Stores
mod Exchanges
mod Revisions
mod Storages
mod Syncs
mod Intakes
use kontur.Prelude.{ℕ, true, false, some, none, []}
use kontur.Domain.Status.{ReviewPriority, candidate, confirmed_violation, negative_verified}
use kontur.Domain.Machine.{Actor}
use kontur.Domain.Models.{Finding}
use kontur.Review.Decision.{decision}

abbrev anna : Actor
anna = record { actor_id = "anna"; is_human = true; is_supervisor = false }

abbrev robot : Actor
robot = record { actor_id = "cascade"; is_human = false; is_supervisor = false }

abbrev one : Finding ℕ
one = record {
  finding_id = "f1";
  rule_code = "R1";
  finding_status = candidate;
  review_priority = ReviewPriority.high;
  matrix_version = "m1";
  rule_version = "r1";
  model_version = "v1";
  evidence_group_id = some "g1";
  expected_value = none;
  actual_value = none;
  delta = none;
  rationale = "";
  llm_draft = none;
  inspector_decision = none;
  source_id = none;
  evidence_refs = [];
  disagreement_kind = none;
}

abbrev two : Finding ℕ
two = record one { finding_id = "f2"; evidence_group_id = some "g2" }

abbrev closed : Finding ℕ
closed = record one { finding_status = negative_verified }

abbrev reviewed : Finding ℕ
reviewed = record one {
  finding_status = confirmed_violation;
  inspector_decision = some (decision anna 7 "CONFIRM" none " да ");
}
