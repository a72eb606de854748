-- ===== src/Wire.antt =====
-- types.go: the structs that go over the wire, each as a record and as its list of fields. A slice
-- that is nil is an empty list, a pointer an `Option`.
pub mod Tier
pub mod Node
pub mod Sensors
pub mod Links
pub mod Beacon
pub mod Memory
pub mod Diagnostics
pub mod Keys
pub mod Mesh
pub mod Messages
pub mod Events
pub mod Probes
pub mod Location
pub mod Config
pub mod Traffic
pub mod RollCall
pub mod Ledger
pub mod Topology
pub mod Replay
pub mod SentProbe
pub mod Reading
pub mod Interleaved
pub mod Replies
mod Tests
