-- ===== src/Examples.antt =====
-- Concrete inputs of the theorems: a CTFd instance in memory, and the theorems at it.
pub mod HintStore
pub mod Instance
pub mod HintInstance
pub mod Flags
pub mod Hints
pub mod HintSync
pub mod Challenges
pub mod WholeChallenge
pub mod Updates
pub mod Lifecycle
pub mod Registered
pub mod Others
pub mod Configuration
pub mod ConfigKeys
