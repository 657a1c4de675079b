-- ===== src/Protocol.antt =====
-- backend/src/kontur/application/protocol.py: the protocol of a check, as JSON.
-- A dictionary keeps the order in which its keys were written; the sorted copy that
-- `canonical_protocol_json` makes has the same entries, and is taken to be the dictionary itself.
pub mod Schema
pub mod Assembly
pub mod Wire
pub mod Sections
pub mod Selection
pub mod Delivery
