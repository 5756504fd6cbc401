-- ===== src/Round3.antt =====
-- ConnManager.cpp: Round 3, the exchange of committed cycles between groups.
pub mod Envoy
pub mod Pending
pub mod Fetch
pub mod Connectivity
pub mod Membership
