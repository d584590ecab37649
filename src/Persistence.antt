-- ===== src/Persistence.antt =====
-- nan/persistence/snapshot.py: the snapshots of the agents, one file each. `Snapshot` is one
-- snapshot and its JSON form, `Store` the directory; `Files`, `Saved` and `Atomic` are the proofs.
pub mod Snapshot
pub mod Store
pub mod Saved
pub mod Atomic
pub mod Files
