-- ===== src/Round3/Pending.antt =====
-- ConnManager.cpp: the requests of other groups that wait until a cycle gets that far
-- (round3_respondToPending...).
use rcanopus_membership.Prelude.{ℕ, if◌then◌else◌, List, [], ◌∷◌, ◌++◌, none, some, lookup, insert}
use rcanopus_membership.Outcome.{Outcome, done, thrown, unexpected_cycle_state, ◌>>=◌}
use rcanopus_membership.Config.{Config}
use rcanopus_membership.Message.{Message, fetch_response, full_membership}
use rcanopus_membership.Manager.{ConnManager, Peer, send, connection, is_state, round2_committed}
use rcanopus_membership.Round3.Envoy.{find_cycle, stored_at}

abbrev pub Pending : Type 0
Pending = List (ℕ × List (ℕ × ℕ))

-- A requester behind those that wait for the cycle.
unfoldable pub add_pending : ℕ → ℕ × ℕ → Pending → Pending
add_pending cycle requester pending = elim (lookup cycle pending) [
  | none ↦ insert cycle (requester ∷ []) pending
  | some requesters ↦ insert cycle (requesters ++ requester ∷ []) pending
]

-- The loop that pushes each requester's connection to the front.
unfoldable pub requester_peers : Config → List (ℕ × ℕ) → List Peer → Outcome (List Peer)
requester_peers c [] peers = done peers
requester_peers c ((bg, sl) ∷ rest) peers =
    connection c bg sl >>= λ p. requester_peers c rest (p ∷ peers)

-- An answer to all who wait.
unfoldable pub answer_pending : ConnManager → Message → List (ℕ × ℕ) → Outcome ConnManager
unfolding requester_peers send
answer_pending s response requesters = do
  peers ← requester_peers s.config requesters []
  done (send s (record { up_peers = peers; message = response }))

unfoldable pub respond_to_pending_fetch_requests : ConnManager → ℕ → Outcome ConnManager
unfolding answer_pending find_cycle stored_at
respond_to_pending_fetch_requests s cycle = do
  st ← find_cycle s cycle
  if is_state round2_committed st
      then (elim (lookup cycle s.map_round3_pending_fetch_requests) [
        | none ↦ done s
        | some requesters ↦ do
          response ← stored_at st.fetch_response s.config.bg_id
          answer_pending
              (record s {
                map_round3_pending_fetch_requests =
                    insert cycle [] s.map_round3_pending_fetch_requests;
              })
              (fetch_response response) requesters
      ])
      else thrown unexpected_cycle_state

unfoldable pub respond_to_pending_fetch_connectivity_requests :
    ConnManager → ℕ → Outcome ConnManager
unfolding answer_pending find_cycle stored_at
respond_to_pending_fetch_connectivity_requests s cycle = do
  st ← find_cycle s cycle
  elim (lookup cycle s.map_round3_pending_connectivity_requests) [
    | none ↦ done s
    | some requesters ↦ do
      response ← stored_at st.connectivity_response s.config.bg_id
      answer_pending
          (record s {
            map_round3_pending_connectivity_requests =
                insert cycle [] s.map_round3_pending_connectivity_requests;
          })
          (fetch_response response) requesters
  ]

unfoldable pub respond_to_pending_fetch_membership_requests : ConnManager → ℕ → Outcome ConnManager
unfolding answer_pending find_cycle stored_at
respond_to_pending_fetch_membership_requests s cycle = do
  st ← find_cycle s cycle
  elim (lookup cycle s.map_round3_pending_membership_requests) [
    | none ↦ done s
    | some requesters ↦ do
      response ← stored_at st.membership_response s.config.bg_id
      answer_pending
          (record s {
            map_round3_pending_membership_requests =
                insert cycle [] s.map_round3_pending_membership_requests;
          })
          (full_membership response) requesters
  ]
