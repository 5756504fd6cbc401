-- ===== src/Hybrid.antt =====
-- The hybrid variant: what ConnManager_Hybrid.cpp does otherwise than ConnManager.cpp. Its super leaves
-- fetch the groups' messages themselves, by the same code as in the baseline, and agree on the
-- connectivity and the membership as in ConnManager.cpp.
pub mod Commit
pub mod Dispatcher
pub mod Preprepare
