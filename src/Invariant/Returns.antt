-- ===== src/Invariant/Returns.antt =====
-- The handling of a Round 2 message before the full commit returns, in a build without DEBUG_FAILFAST.
use rcanopus_membership.Outcome.{
  Returns, Returns-Ensures, Returns->>=, Returns-debug_throw, Returns-debug_throw_else_return,
  Returns-if, done,
}
use rcanopus_membership.Prelude.{
  ap, zero, suc, ℕ, ◌+◌, ◌≤◌, ◌<◌, ◌≡◌, inl, inr, true, false, ltb, ltb→lt, lt→ltb, ◌==◌, ==_iff,
  if◌then◌else◌, List, [], ◌∷◌, some, set, length, arith, Option-cases, not, ◌||◌,
}
use rcanopus_membership.Config.{num_bg, num_sl, get_f}
use rcanopus_membership.Message.{
  MessageKind, kind_request, kind_preprepare, kind_partial_commit, Message, MessageRound2Request,
  MessageRound2Preprepare, MessageRound2PartialCommit, request, preprepare, partial_commit,
  message_header, kind_of, message_round2_preprepare,
}
use rcanopus_membership.Manager.{
  Peer, ConnManager, Host, CycleStatus, QueueElement, is_none, is_round2_leader, at, is_state,
  round2_start_status, round2_waiting_for_preprepare, round2_collector_waiting_for_partialcommits,
}
use rcanopus_membership.Round2.Leader.{
  broadcast_preprepare, round2_ready, can_start_round2, take_preprepare, create_preprepare,
  leader_round2_send_preprepare, start_round2_if_possible, dispatcher_round2_request,
}
use rcanopus_membership.Round2.Replica.{
  take_up_preprepare, preprepare_in_status, dispatcher_round2_preprepare, is_later,
  verify_partial_commit, partial_commit_in_status, dispatcher_round2_partial_commit,
}
use rcanopus_membership.Dispatcher.{dispatch_as, dispatcher_round2}
use rcanopus_membership.Invariant.{Round2Ok, Holds}
use rcanopus_membership.Invariant.Round2.{started, Handles}
use rcanopus_membership.Invariant.Round2.Replica.{phase_of, phase_collecting}
use rcanopus_membership.Invariant.Dispatch.{dispatcher_round2-Handles}

-- A build without DEBUG_FAILFAST.
abbrev release : Host → Host
release h = record h { debug_failfast = false }

ready_is_idle : (s : ConnManager) → round2_ready s ≡ true → is_none s.round2_current_status ≡ true
unfolding round2_ready
ready_is_idle s h = ground arith

-- The group has no more failures than super leaves.
abbrev pub FewFailures : ConnManager → Type 0
FewFailures s = get_f s.config s.config.bg_id ≤ num_sl s.config s.config.bg_id

take_preprepare-Returns :
    (h : Host) (s : ConnManager) → FewFailures s → Returns (take_preprepare (release h) s)
unfolding take_preprepare create_preprepare
take_preprepare-Returns h s few = ground arith

can_start_round2_lem :
    (h : Host) (s : ConnManager)
    → is_round2_leader s ≡ true
    → can_start_round2 (release h) s ≡ done (round2_ready s)
unfolding can_start_round2
can_start_round2_lem h s leads = ground (arith, leads)

leader_round2_send_preprepare-Returns :
    (h : Host) (s : ConnManager)
    → is_round2_leader s ≡ true
    → FewFailures s
    → round2_ready s ≡ true
    → Returns (leader_round2_send_preprepare (release h) s)
unfolding leader_round2_send_preprepare
leader_round2_send_preprepare-Returns h s leads few ready =
    let idle = ready_is_idle s ready in
    Returns-debug_throw (is_round2_leader s) _ (
      rw (can_start_round2_lem h s leads) (
        Returns-debug_throw (round2_ready s) _ (
          rw idle (
            Returns->>= {B = ConnManager} (take_preprepare (release h) (started s))
              (λ r. done (broadcast_preprepare r.0 r.1)) (take_preprepare-Returns h (started s) few)
              λ r e. tt))))

start_round2_if_possible-Returns :
    (h : Host) (s : ConnManager)
    → is_round2_leader s ≡ true
    → FewFailures s
    → Returns (start_round2_if_possible (release h) s)
unfolding start_round2_if_possible
start_round2_if_possible-Returns h s leads few =
    Returns->>= (can_start_round2 (release h) s)
      (λ ready. if ready then leader_round2_send_preprepare (release h) s else done s)
      (rw (can_start_round2_lem h s leads) tt)
      λ ready e.
        Returns-if ready (leader_round2_send_preprepare (release h) s) (done s)
          (λ yes.
            leader_round2_send_preprepare-Returns h s leads few
              (ground (arith, can_start_round2_lem h s leads, e, yes)))
          (λ _. tt)

at-Returns {ℓ} : {A : Type ℓ} (v : List A) (i : ℕ) → i < length v → Returns (at v i)
at-Returns [] i lt = absurd (omega arith)
at-Returns (x ∷ v) zero lt = tt
at-Returns (x ∷ v) (suc i) lt = at-Returns v i (omega arith)

dispatcher_round2_request-Returns :
    (h : Host) (s : ConnManager) (e : QueueElement) (p : MessageRound2Request)
    → (s.config.sl_id ≡ 0 → length s.rg_leader_batch_received_from ≡ num_sl s.config s.config.bg_id)
    → (s.config.sl_id ≡ 0 → FewFailures s)
    → Returns (dispatcher_round2_request (release h) s e p)
unfolding dispatcher_round2_request is_round2_leader
dispatcher_round2_request-Returns h s e p size few =
    Returns-if (is_round2_leader s) _ _
      (λ leads.
        Returns-debug_throw_else_return (ltb p.sender (num_sl s.config s.config.bg_id)) s _
          λ member.
            Returns->>= (at s.rg_leader_batch_received_from p.sender)
              (λ received. start_round2_if_possible (release h) (record s {
                rg_leader_batch_received_from =
                    set s.rg_leader_batch_received_from p.sender (received + 1);
              }))
              (at-Returns s.rg_leader_batch_received_from p.sender (
                rw (size ((==_iff s.config.sl_id 0).0 leads))
                  (ltb→lt p.sender (num_sl s.config s.config.bg_id) member)))
              λ received _.
                start_round2_if_possible-Returns h
                  (record s {
                    rg_leader_batch_received_from =
                        set s.rg_leader_batch_received_from p.sender (received + 1);
                  })
                  leads (few ((==_iff s.config.sl_id 0).0 leads)))
      (λ _. tt)

take_up_preprepare-Returns :
    (h : Host) (s : ConnManager) (st : CycleStatus) (p : MessageRound2Preprepare)
    → p.collector_sl_id < num_sl s.config s.config.bg_id
    → Returns (take_up_preprepare (release h) s st p)
unfolding take_up_preprepare
take_up_preprepare-Returns h s st p member =
    let there = lt→ltb p.collector_sl_id (num_sl s.config s.config.bg_id) member in
    ground (arith, there)

preprepare_in_status-Returns :
    (h : Host) (s : ConnManager) (st : CycleStatus) (e : QueueElement) (p : MessageRound2Preprepare)
    → p.collector_sl_id < num_sl s.config s.config.bg_id
    → Returns (preprepare_in_status (release h) s st e p)
unfolding preprepare_in_status
preprepare_in_status-Returns h s st e p member =
    Returns-if (not (st.awaiting_message_type == message_round2_preprepare)) _ _ (λ _. tt)
      λ _. Returns-debug_throw (st.message_received_counter == 0) _ (
        Returns-debug_throw (st.message_required == 1) _ (
          Returns-if (is_later s p) _ _ (λ _. tt)
            λ _. Returns-debug_throw_else_return (p.view == s.round2_next_view) s _ λ _.
              Returns-debug_throw (is_round2_leader s || p.seq == s.round2_next_seq) _
                (take_up_preprepare-Returns h s st p member)))

dispatcher_round2_preprepare-Returns :
    (h : Host) (s : ConnManager) (e : QueueElement) (p : MessageRound2Preprepare)
    → p.collector_sl_id < num_sl s.config s.config.bg_id
    → Returns (dispatcher_round2_preprepare (release h) s e p)
unfolding dispatcher_round2_preprepare
dispatcher_round2_preprepare-Returns h s e p member = elim (Option-cases s.round2_current_status) [
  | inl idle ↦
      rw (idle, dispatcher_round2_preprepare)
        (preprepare_in_status-Returns h (started s) (round2_start_status (num_bg s.config)) e p
          member)
  | inr (st, current) ↦
      rw (current, dispatcher_round2_preprepare) (preprepare_in_status-Returns h s st e p member)
]

-- A message that is collected is stored.
verify_partial_commit-Returns :
    (s : ConnManager) (st : CycleStatus) (p : MessageRound2PartialCommit)
    → is_none s.round2_verifier ≡ false
    → Holds st s.temporary_storage_of_preprepare
    → Returns (verify_partial_commit s p)
unfolding verify_partial_commit
verify_partial_commit-Returns s st p verifier held = ground arith

partial_commit_in_status-Returns :
    (h : Host) (s : ConnManager) (st : CycleStatus) (e : QueueElement)
    (p : MessageRound2PartialCommit)
    → is_none s.round2_verifier ≡ false
    → s.round2_current_status ≡ some st
    → Round2Ok s
    → Returns (partial_commit_in_status (release h) s st e p)
unfolding partial_commit_in_status
partial_commit_in_status-Returns h s st e p verifier current ok =
    Returns-if (is_state round2_waiting_for_preprepare st) _ _ (λ _. tt)
      λ _.
        Returns-if (ltb st.round2_view p.view || ltb st.round2_sequence p.seq) _ _ (λ _. tt)
          λ _. Returns-debug_throw_else_return s.round2_is_collector s _ λ _.
            Returns-debug_throw_else_return
              (is_state round2_collector_waiting_for_partialcommits st) s _
              λ collecting. Returns-debug_throw_else_return (p.view == st.round2_view) s _ λ _.
                Returns-debug_throw_else_return (p.seq == st.round2_sequence) s _ λ _.
                  let phase =
                    phase_collecting s.config st s.temporary_storage_of_preprepare st.state
                      (phase_of s st current ok) collecting in
                  Returns->>= (verify_partial_commit s p) _
                    (verify_partial_commit-Returns s st p verifier phase.3)
                    λ valid _. Returns-debug_throw_else_return valid s _ λ _. tt

dispatcher_round2_partial_commit-Returns :
    (h : Host) (s : ConnManager) (e : QueueElement) (p : MessageRound2PartialCommit)
    → is_none s.round2_verifier ≡ false
    → Round2Ok s
    → Returns (dispatcher_round2_partial_commit (release h) s e p)
unfolding dispatcher_round2_partial_commit
dispatcher_round2_partial_commit-Returns h s e p verifier ok =
    elim (Option-cases s.round2_current_status) [
      | inl idle ↦ rw (idle, dispatcher_round2_partial_commit) tt
      | inr (st, current) ↦
          rw (current, dispatcher_round2_partial_commit)
            (partial_commit_in_status-Returns h s st e p verifier current ok)
    ]

-- The messages of Round 2 that come before the full commit, with what the handling takes for granted:
-- the version, the type of the struct, and a collector that is a member of the group.
abbrev pub IsProposal : ConnManager → Message → Type 0
IsProposal s (request p) = (p.header.version ≡ 1) × (p.header.msg_type ≡ 2)
IsProposal s (preprepare p) =
    (p.header.version ≡ 1)
    × (p.header.msg_type ≡ 3)
    × (p.collector_sl_id < num_sl s.config s.config.bg_id)
IsProposal s (partial_commit p) = (p.header.version ≡ 1) × (p.header.msg_type ≡ 4)
IsProposal s _ = ⊥

-- A message of the known version goes to the handler of its type.
by_kind-Returns :
    (h : Host) (s : ConnManager) (e : QueueElement) (kind : MessageKind)
    → (message_header e.message).version ≡ 1
    → kind_of (message_header e.message).msg_type ≡ kind
    → Returns (dispatch_as h s e kind e.message)
    → Returns (dispatcher_round2 h s e)
unfolding dispatcher_round2
by_kind-Returns h s e kind version type r = ground (arith, version, type, r)

proposal-Returns :
    (h : Host) (s : ConnManager) (up_peers : List Peer) (m : Message)
    → (s.config.sl_id ≡ 0 → length s.rg_leader_batch_received_from ≡ num_sl s.config s.config.bg_id)
    → (s.config.sl_id ≡ 0 → FewFailures s)
    → is_none s.round2_verifier ≡ false
    → Round2Ok s
    → IsProposal s m
    → Returns (dispatcher_round2 (release h) s (record { up_peers = up_peers; message = m }))
unfolding message_header dispatch_as kind_of
proposal-Returns h s up_peers (request p) size few verifier ok shape =
    by_kind-Returns (release h) s _ kind_request shape.0 (ap kind_of shape.1)
      (dispatcher_round2_request-Returns h s _ p size few)
proposal-Returns h s up_peers (preprepare p) size few verifier ok shape =
    by_kind-Returns (release h) s _ kind_preprepare shape.0 (ap kind_of shape.1)
      (dispatcher_round2_preprepare-Returns h s _ p shape.2)
proposal-Returns h s up_peers (partial_commit p) size few verifier ok shape =
    by_kind-Returns (release h) s _ kind_partial_commit shape.0 (ap kind_of shape.1)
      (dispatcher_round2_partial_commit-Returns h s _ p verifier ok)
proposal-Returns h s up_peers _ size few verifier ok shape = absurd shape

-- In a build without DEBUG_FAILFAST, on a well-formed node of a group with super leaves, with a
-- verifier and, if it leads the group, a batch counter for each and no more failures than super leaves,
-- the dispatch of a request, preprepare or partial commit, of the known version and with a collector in
-- the group, returns, whatever the other fields hold, and handles the message: it does not throw, abort
-- or leave the bounds of a vector, the node is well formed again with the same configuration, verifier
-- and number of batch counters, the message is used up or put back unchanged at the end of the juggle
-- queue, and a request leaves the partial and full commits in the send queue as they were.
pub dispatcher_round2-returns :
    (h : Host) (s : ConnManager) (up_peers : List Peer) (m : Message)
    → 0 < num_sl s.config s.config.bg_id
    → (s.config.sl_id ≡ 0 → length s.rg_leader_batch_received_from ≡ num_sl s.config s.config.bg_id)
    → (s.config.sl_id ≡ 0 → FewFailures s)
    → is_none s.round2_verifier ≡ false
    → Round2Ok s
    → IsProposal s m
    → (t : ConnManager) × (dispatcher_round2
          (record h { debug_failfast = false })
          s
          (record { up_peers = up_peers; message = m })
        ≡ done t)
      × Handles (record { up_peers = up_peers; message = m }) s t
dispatcher_round2-returns h s up_peers m pos size few verifier ok shape =
    let e : QueueElement = record { up_peers = up_peers; message = m } in
    Returns-Ensures (Handles e s) (dispatcher_round2 (release h) s e)
      (proposal-Returns h s up_peers m size few verifier ok shape)
      (dispatcher_round2-Handles (release h) s e pos ok)
