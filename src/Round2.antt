-- ===== src/Round2.antt =====
-- ConnManager.cpp: Round 2, the agreement within a group on the leader's sequence of messages.
pub mod Leader
pub mod Replica
pub mod Agreement
