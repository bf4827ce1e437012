-- ===== src/Tests.antt =====
-- Runs of the models at concrete inputs.
pub mod Disk
pub mod Hash
pub mod Pool
pub mod Cache
pub mod Panel
pub mod Pages
pub mod Walks
pub mod Records
pub mod RecordRuns
pub mod RecordLaws
pub mod FileRuns
pub mod Objects
pub mod Program
