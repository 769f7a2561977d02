-- ===== src/Prelude.antt =====
-- What the components share: Boolean tests, tables, service calls, JSON values and printed keys.
pub mod Tests
pub mod Tables
pub mod Members
pub mod Effects
pub mod Json
pub mod Text
pub mod Codes
pub mod Sorting
pub mod Results
pub mod Keys
pub mod Dumps
