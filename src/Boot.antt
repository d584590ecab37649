-- ===== src/Boot.antt =====
-- nan/boot.py: the restore of the agents from their snapshots. `Subtree` is the walk over the spawn
-- tree, with its fuel; `Restore` the whole of `restore`; `Reach` and `Turns` are the proofs.
pub mod Subtree
pub mod Fuel
pub mod Reach
pub mod Restore
pub mod Turns
