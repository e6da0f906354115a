-- ===== src/Challenge.antt =====
-- The challenge controller (internal/controller/challenge/).
pub mod Prereqs
pub mod Keys
pub mod Multiset
pub mod Conversion
pub mod Pool
pub mod Flags
pub mod Hints
pub mod HintSync
pub mod Controller
