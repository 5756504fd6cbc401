-- ===== src/Baseline.antt =====
-- The baseline variant: what ConnManager_Baseline.cpp does otherwise than ConnManager.cpp. In it every
-- super leaf fetches the groups' messages itself, and the leaders of the groups agree on a cycle by a
-- preprepare, partial commits and a full commit of their own.
pub mod Agreement
pub mod Fetch
pub mod Commit
pub mod Dispatcher
pub mod Unreached
