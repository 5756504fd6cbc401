-- ===== src/Round2/Replica.antt =====
-- ConnManager.cpp: every super leaf of a group agrees on the leader's messages
-- (dispatcher_round2_preprepare, dispatcher_round2_partialCommit).
pub mod Progress
pub mod Verifier
use rcanopus_membership.Prelude.{
  ℕ, ◌+◌, ◌-◌, Bool, true, false, not, ◌&&◌, ◌||◌, ltb, ◌==◌, if◌then◌else◌, List, [], ◌∷◌, Option,
  none, some, u16, take, replicate,
}
use rcanopus_membership.Const.{version_latest, sbft_signature_size, sbft_combined_signature_size}
use rcanopus_membership.Outcome.{
  Outcome, done, thrown, undefined, verifier_not_set, ◌>>=◌, ◌>>◌, debug_throw,
  debug_throw_else_return,
}
use rcanopus_membership.Config.{Config, num_bg, num_sl}
use rcanopus_membership.Message.{
  MessageRound2Preprepare, MessageRound2PartialCommit, MessageRound2FullCommit, partial_commit,
  full_commit, message_round2_preprepare, message_round2_partial_commit, message_round2_full_commit,
  sizeof_partial_commit, sizeof_full_commit, sizeof_header,
}
use rcanopus_membership.Message.Image.{preprepare_bytes}
use rcanopus_membership.Manager.{
  ConnManager, Host, QueueElement, CycleStatus, CycleState, Peer, self,
  round2_waiting_for_preprepare, round2_collector_waiting_for_partialcommits,
  round2_waiting_for_fullcommit, is_round2_leader, juggle, send, connection, broadcast_peers,
  is_none, is_state, await, round2_start_status,
}

-- The partial commit that a super leaf makes for its current message.
unfoldable pub own_partial_commit : Config → CycleStatus → MessageRound2PartialCommit
own_partial_commit c st = record {
  header = record {
    version = version_latest;
    msg_type = message_round2_partial_commit;
    payload_len = sizeof_partial_commit - sizeof_header;
  };
  sender = u16 c.sl_id;
  view = st.round2_view;
  seq = st.round2_sequence;
  signature = replicate sbft_signature_size 0;
}

unfoldable pub own_full_commit : Config → CycleStatus → MessageRound2FullCommit
own_full_commit c st = record {
  header = record {
    version = version_latest;
    msg_type = message_round2_full_commit;
    payload_len = sizeof_full_commit - sizeof_header;
  };
  sender = u16 c.sl_id;
  view = st.round2_view;
  seq = st.round2_sequence;
  combined_signature = replicate sbft_combined_signature_size 0;
}

-- What the status becomes once the message is taken up: a collector waits for the partial commits of
-- the whole group, the others for the full commit.
unfoldable pub taken_up : Config → MessageRound2Preprepare → CycleStatus → CycleStatus
unfolding await
taken_up c p st =
    let st' = record st { round2_sequence = p.seq; round2_view = p.view } in
    if p.collector_sl_id == c.sl_id
    then await round2_collector_waiting_for_partialcommits message_round2_partial_commit
        (num_sl c c.bg_id) st'
    else await round2_waiting_for_fullcommit message_round2_full_commit 1 st'

-- The rest of dispatcher_round2_preprepare, from the checks of view and sequence number on.
unfoldable pub take_up_preprepare :
    Host → ConnManager → CycleStatus → MessageRound2Preprepare → Outcome ConnManager
unfolding taken_up own_partial_commit send is_round2_leader connection
take_up_preprepare h s st p = do
  let st' = taken_up s.config p st
  let i_am_collector = p.collector_sl_id == s.config.sl_id
  recipient ←
      if i_am_collector then done self else connection s.config s.config.bg_id p.collector_sl_id
  let s' = record s {
    round2_current_status = some st';
    round2_next_seq = if is_round2_leader s then s.round2_next_seq else u16 (s.round2_next_seq + 1);
    round2_is_collector = i_am_collector;
  }
  let s'' = send s' (record {
    up_peers = recipient ∷ [];
    message = partial_commit (own_partial_commit s.config st');
  })
  debug_throw h.debug_failfast (is_none s.temporary_storage_of_preprepare)
  done (record s'' { temporary_storage_of_preprepare = some p })

-- A message of a later view, or of a later place in this view.
unfoldable pub is_later : ConnManager → MessageRound2Preprepare → Bool
is_later s p =
    ltb s.round2_next_view p.view || (p.view == s.round2_next_view && ltb s.round2_next_seq p.seq)

-- dispatcher_round2_preprepare with a current status.
unfoldable pub preprepare_in_status :
    Host → ConnManager → CycleStatus → QueueElement → MessageRound2Preprepare → Outcome ConnManager
unfolding take_up_preprepare is_later juggle
preprepare_in_status h s st e p =
    if not (st.awaiting_message_type == message_round2_preprepare) then done (juggle s e) else (do
      debug_throw h.debug_failfast (st.message_received_counter == 0)
      debug_throw h.debug_failfast (st.message_required == 1)
      if is_later s p
          then done (juggle s e)
          else debug_throw_else_return h.debug_failfast (p.view == s.round2_next_view) s (do
            debug_throw h.debug_failfast (is_round2_leader s || p.seq == s.round2_next_seq)
            take_up_preprepare h s st p))

unfoldable pub dispatcher_round2_preprepare :
    Host → ConnManager → QueueElement → MessageRound2Preprepare → Outcome ConnManager
unfolding preprepare_in_status round2_start_status
dispatcher_round2_preprepare h s e p = elim s.round2_current_status [
  | none ↦
      let st = round2_start_status (num_bg s.config) in
      preprepare_in_status h (record s { round2_current_status = some st }) st e p
  | some st ↦ preprepare_in_status h s st e p
]

-- The check of a partial commit's signature over the stored message.
unfoldable pub verify_partial_commit : ConnManager → MessageRound2PartialCommit → Outcome Bool
verify_partial_commit s p = elim s.round2_verifier [
  | none ↦ thrown verifier_not_set
  | some verifier ↦ elim s.temporary_storage_of_preprepare [
    | none ↦ undefined
    | some stored ↦
        done (verifier (take stored.header.payload_len (preprepare_bytes stored)) p.signature)
  ]
]

-- One more valid partial commit: the last one makes the collector broadcast the full commit.
unfoldable pub count_partial_commit : ConnManager → CycleStatus → ConnManager
unfolding own_full_commit send broadcast_peers await
count_partial_commit s st =
    let st' = record st { message_received_counter = st.message_received_counter + 1 } in
    if st'.message_received_counter == st'.message_required
    then send
        (record s {
          round2_current_status =
              some (await round2_waiting_for_fullcommit message_round2_full_commit 1 st');
        })
        (record {
          up_peers = broadcast_peers s.config;
          message = full_commit (own_full_commit s.config st');
        })
    else record s { round2_current_status = some st' }

-- dispatcher_round2_partialCommit with a current status.
unfoldable pub partial_commit_in_status :
    Host
    → ConnManager
    → CycleStatus
    → QueueElement
    → MessageRound2PartialCommit
    → Outcome ConnManager
unfolding verify_partial_commit count_partial_commit juggle
partial_commit_in_status h s st e p =
    if is_state round2_waiting_for_preprepare st
    then done (juggle s e)
    else if ltb st.round2_view p.view || ltb st.round2_sequence p.seq
    then done (juggle s e)
    else debug_throw_else_return h.debug_failfast s.round2_is_collector s (
        debug_throw_else_return h.debug_failfast
          (is_state round2_collector_waiting_for_partialcommits st) s
          (debug_throw_else_return h.debug_failfast (p.view == st.round2_view) s (
            debug_throw_else_return h.debug_failfast (p.seq == st.round2_sequence) s (do
              valid ← verify_partial_commit s p
              debug_throw_else_return h.debug_failfast valid s
                  (done (count_partial_commit s st))))))

unfoldable pub dispatcher_round2_partial_commit :
    Host → ConnManager → QueueElement → MessageRound2PartialCommit → Outcome ConnManager
unfolding partial_commit_in_status
dispatcher_round2_partial_commit h s e p = elim s.round2_current_status [
  | none ↦ done (juggle s e)
  | some st ↦ partial_commit_in_status h s st e p
]
