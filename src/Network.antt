-- ===== src/Network.antt =====
-- Static networks: the pool of usable addresses, and their allocation to deployments.
pub mod Pool
pub mod Allocate
pub mod Context
pub mod Tests
