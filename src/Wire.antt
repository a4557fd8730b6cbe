-- ===== src/Wire.antt =====
-- web/src/types/contract.ts: the wire contract and the guards at its trust boundary.
pub mod Json
pub mod Types
pub mod Guards
pub mod Read
pub mod Shape
pub mod Complete
pub mod Parsers
pub mod UsageShape
pub mod UsageComplete
