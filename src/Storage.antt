-- ===== src/Storage.antt =====
-- What the database keeps as text and JSON: backend/src/kontur/infrastructure/db/evidence_codec.py and
-- the rows of findings in backend/src/kontur/infrastructure/db/process_store.py.
pub mod Values
pub mod Evidence
pub mod Groups
pub mod EvidenceTrip
pub mod GroupTrip
pub mod FindingRow
pub mod FindingTrip
