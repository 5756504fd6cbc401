-- ===== src/Invariant/Baseline.antt =====
-- ConnManager_Baseline.cpp: what holds of a node of the baseline between two messages.
pub mod Frame
pub mod Commit
pub mod Loop
