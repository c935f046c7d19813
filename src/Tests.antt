-- ===== src/Tests.antt =====
-- Runs of the models at concrete inputs. No code of the repository is modelled here; the libraries
-- that the program calls are simple ones.
pub mod Table
pub mod Libraries
pub mod Pools
pub mod Packets
pub mod Stores
pub mod Networks
pub mod Pings
pub mod Requests
pub mod Statics
pub mod Inis
pub mod Starts
pub mod Leases
pub mod Relays
