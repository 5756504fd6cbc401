-- ===== src/Message/Round3/Query.antt =====
-- The request that an envoy makes out of its group's own response.
