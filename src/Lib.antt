-- ===== src/Lib.antt =====
-- The core of Kontur, the service that compares the documents of a construction object and takes the
-- findings through an inspector's review to a protocol for the outside system "РиН". Everything below
-- is under backend/src/kontur/.
--
-- The parts and their files:
--   Domain           domain/statuses.py (Status), domain/state_machines.py (Machine), domain/models.py
--                    (Models, with the checks of the constructors in Models/Checks),
--                    domain/status_map.py (StatusMap) and domain/capabilities.py (Capabilities: which
--                    engines work). A state machine is a table and a guarded move;
--                    an actor says whether it is human.
--   Revision         application/revision_resolver.py: approvals (Approval), the grouping of documents
--                    without a code by union-find (Blanks), the chains that names of files tell (Names),
--                    one stage (Resolve) and every chain of a stage for itself (Heads).
--   Intake           application/intake.py: the checks of an uploaded file, and the decision on an
--                    upload (Batch); in Batch/Upload the lines of presentation/api.py that refuse an
--                    upload as a whole.
--   Review           application/review.py: one decision, a batch, a split, and the opening, closing,
--                    finalizing and reopening of the queue, with the audit log as a list.
--   Retry            application/retry_policy.py.
--   Scenario, Catalog  application/scenarios.py and application/completeness_catalog.py.
--   Protocol         application/protocol.py: a finding as a card (Schema), the document (Assembly) and
--                    what leaves the service (Wire).
--   Pipeline         application/pipeline.py: the cascade of stages before a comparison.
--   Store            infrastructure/db/process_store.py: snapshots of processes, findings and finalized
--                    protocols in memory; finalizing in Materialize, the audit log, the groups of
--                    evidence and the other lookups in Records.
--   Outbox           infrastructure/outbox.py on the store in memory, and the answer type of
--                    infrastructure/rin_client.py.
--   Inbox            infrastructure/inbox.py.
--   Exchange         the store, its relay and the inbox together: the steps that change the store, and the
--                    message that the relay publishes as the inbox receives it; the finalized
--                    protocols by their texts (Registry), which is what a step promises.
--   Storage          infrastructure/db/evidence_codec.py (Evidence, Groups) and the rows of findings in
--                    infrastructure/db/process_store.py (FindingRow), with the members' texts (Values).
--   Sync             infrastructure/sync_relay.py on tables of processes, outbox rows and audit records,
--                    and the transaction of infrastructure/outbox_worker.py.
--   Rbac             presentation/rbac.py.
--   Prelude          shared: Python's results and exceptions, texts (Text), JSON (Json), dictionaries
--                    (Dict), lists and equality.
--   Examples         every result at work on a small input.
--
-- How they interact: Intake takes the files in; the cascade admits a rule to the comparison, whose
-- findings are entities of Domain; Review moves them by Domain's machine; Protocol places them by
-- their statuses and cuts out what may be sent; Store keeps that with a row of the outbox; Outbox
-- sends it with the delays that Retry decides too, and Inbox takes it on the other side; Exchange
-- puts these three together. Revision chooses the documents that are compared, and Storage is what
-- the database keeps of their evidence and of the findings. Rbac stands before each operation of the
-- interface.
--
-- How the code is modelled. A function that may raise returns a `Result`, and its exceptions are values
-- of an error type. State that a function changes is an argument and a part of what it returns: the
-- audit log, the outbox, the table of the inbox; where the code raises after a change, the changed state
-- is returned with the error. Enumerations keep their members' texts, by which JSON and the stored rows
-- name them. JSON objects are lists of fields in order. Numbers of tries, versions and pages are natural
-- numbers; moments and delays of the outbox are in seconds.
-- Arguments stand for what is not the code's own: floats and their order (`Floats`, or a type), the
-- digest and the stored text of a protocol, the broker, the outside system, a failing database, the
-- registry of rules, `str`, `str.lower` and `int` of a text, the regular expressions of names of files,
-- the dates' texts, a JSON column of the database, and of an uploaded file the suffix of its name, the
-- length of the name in UTF-8 and the members of an archive. Where a theorem needs a law of them it is a named
-- hypothesis: that reading a canonical JSON text keeps it, that a digest is bare lower-case text, that
-- `fromisoformat` reads what `isoformat` writes, that a JSON column keeps the fields of an object whose
-- numbers are finite and written without an exponent and whose texts lack the character 0.
-- `parse_delays` runs on fuel: two more than the limit of retries, which `parse_delays_lem` shows to be
-- enough. The search for a root in `Blanks` runs on fuel: one more than two links for each document, which
-- `fuel_is_enough` shows to be enough. Every other loop is recursion on a list or a text.
--
-- Not modelled: the SQL of the PostgreSQL store and of its plain relay, HTTP handlers (but for
-- the lines of the upload named above) and tokens, the antivirus, the expansion of archives, extractors and OCR, exports, evaluation and data-set tools,
-- adapters of storage and brokers, the endless loops of the workers, the command line; they are input
-- and output, or call third-party libraries.
pub mod Prelude
pub mod Domain
pub mod Revision
pub mod Review
pub mod Retry
pub mod Scenario
pub mod Catalog
pub mod Protocol
pub mod Outbox
pub mod Inbox
pub mod Store
pub mod Rbac
pub mod Pipeline
pub mod Examples
pub mod Exchange
pub mod Storage
pub mod Sync
pub mod Intake
