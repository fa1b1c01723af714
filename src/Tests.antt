-- ===== src/Tests.antt =====
-- Tests on concrete inputs, and the theorems at inputs that meet their hypotheses.
pub mod Samples
pub mod Coding
pub mod IrcTests
pub mod DalTests
pub mod StoreTests
pub mod CodexTests
pub mod MessageTests
pub mod HealthTests
pub mod StartTests
pub mod SupervisorTests
pub mod ServiceTests
pub mod FleetTests
pub mod ConfigTests
pub mod RpcTests
pub mod WatchTests
pub mod OwnerTests
