-- ===== src/Pi.antt =====
-- pi/pi_comm_ssc.c: the management process, with its database of addresses.
pub mod Db
pub mod Local
pub mod Clear
pub mod Ports
pub mod Receive
pub mod Handlers
pub mod Invariant
pub mod Learn
pub mod Order
pub mod Stale
pub mod Race
pub mod Show
pub mod Rows
pub mod Listing
pub mod Printing
pub mod Server
pub mod Cli
pub mod Process
pub mod Main
