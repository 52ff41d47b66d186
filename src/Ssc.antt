-- ===== src/Ssc.antt =====
-- The process ssc, between pi and the ssd: ssc_db_manger.c and ssc_comm_pi.c.
pub mod Db
pub mod Store
pub mod Comm
pub mod Sync
pub mod Calls
pub mod Blocked
pub mod Invariant
pub mod Age
pub mod Notice
pub mod Upload
pub mod Resync
pub mod Remove
pub mod Learn
pub mod Torn
pub mod Interface
pub mod Process
pub mod Config
pub mod Static
pub mod Start
