-- ===== src/Client.antt =====
-- src/client: the commands of a founder client, the pipes between a client and its daemon, the daemon's
-- loop, and the command line.
pub mod Pipe
pub mod Messages
pub mod Replies
pub mod Starved
pub mod Control
pub mod Stored
pub mod Loaded
pub mod Sessions
pub mod Daemon
pub mod Founder
pub mod Handle
pub mod Exchange
pub mod Printed
pub mod Answered
pub mod Interactive
pub mod Typed
pub mod Boot
pub mod Start
pub mod Home
pub mod Descriptors
pub mod Process
pub mod Housed
pub mod Cleared
pub mod Settled
pub mod Memory
pub mod Disk
pub mod Homes
pub mod Strain
pub mod Relief
pub mod Leaving
pub mod Examples
pub mod Trials
pub mod Cases
pub mod Sampled
pub mod Whole
pub mod Commands
pub mod Endpoints
