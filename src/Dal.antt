-- ===== src/Dal.antt =====
-- pkg/dal: channel names, the state on disk and the message store.
pub mod Channel
pub mod AtomicFile
pub mod State
pub mod Binding
pub mod Store
pub mod Process
pub mod Owner
