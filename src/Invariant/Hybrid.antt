-- ===== src/Invariant/Hybrid.antt =====
-- ConnManager_Hybrid.cpp: what holds of a node of the hybrid variant between two messages.
pub mod Preprepare
pub mod Commit
pub mod Loop
