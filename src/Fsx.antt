-- ===== src/Fsx.antt =====
-- ltp/fsx.c, the file system exerciser.
pub mod File
pub mod Kernel
pub mod State
pub mod Model
pub mod Check
pub mod Transfer
pub mod Range
pub mod Duplicate
pub mod Live
pub mod Replay
pub mod Rerun
pub mod Settings
pub mod Options
pub mod SetUp
pub mod Boot
pub mod Choose
pub mod Step
mod Tests
