-- ===== src/Round2/Agreement/Delivery.antt =====
-- ConnManager.cpp: a group agrees on a message: its super leaves take it up, and its collector counts
-- their partial commits.
use rcanopus_membership.Manager.Recipients.{ReachesGroup}
use rcanopus_membership.Outcome.{◌>>=◌, done}
use rcanopus_membership.Prelude.{
  ◌%◌, replicate, ℕ, ◌+◌, ◌≤◌, ◌<◌, ◌≡◌, refl, sym, ap, ◌∙◌, ◌⊎◌, inl, inr, ◌==◌, ==_iff, lt→ltb,
  if◌then◌else◌, List, [], ◌∷◌, ◌++◌, none, some, map, arith, u16, length, length-map,
}
use rcanopus_membership.Config.{Config, num_bg, num_sl}
use rcanopus_membership.Message.{
  full_commit, MessageRound2Preprepare, MessageRound2PartialCommit, partial_commit,
}
use rcanopus_membership.Manager.{
  ConnManager, Host, QueueElement, CycleStatus, Peer, self, peer, connection, is_round2_leader,
  await, round2_start_status, round2_collector_waiting_for_partialcommits,
}
use rcanopus_membership.Network.{Nodes}
use rcanopus_membership.Round2.Replica.{
  own_partial_commit, taken_up, take_up_preprepare, preprepare_in_status,
  dispatcher_round2_preprepare,
}
use rcanopus_membership.Round2.Replica.Verifier.{fake_verifier, verify_partial_commit_fake}
use rcanopus_membership.Round2.Replica.Progress.{
  written_full_commit, dispatch_partial_commits, AreValid, dispatch_partial_commits-all,
}
use rcanopus_membership.Round2.Agreement.{place, partial_commit_to}

-- A super leaf that is ready for the message: it has nothing on its way, or the status that the leader
-- gives itself with the proposal, and the message is the next one.
pub record IsReady (s : ConnManager) (p : MessageRound2Preprepare) : Type 0 where
  pub idle :
      (s.round2_current_status ≡ none)
      ⊎ (s.round2_current_status ≡ some (round2_start_status (num_bg s.config)))
  pub nothing_stored : s.temporary_storage_of_preprepare ≡ none
  pub in_view : s.round2_next_view ≡ p.view
  pub in_order : (s.round2_next_seq ≡ p.seq) ⊎ ((s.config.sl_id ≡ 0) × (p.seq ≤ s.round2_next_seq))

-- What a super leaf is once it has taken up the message.
abbrev pub status_of : Config → MessageRound2Preprepare → CycleStatus
status_of c p = taken_up c p (round2_start_status (num_bg c))

abbrev pub recipient_of : Config → MessageRound2Preprepare → Peer
recipient_of c p = if p.collector_sl_id == c.sl_id then self else peer c.bg_id p.collector_sl_id

abbrev pub taken : ConnManager → MessageRound2Preprepare → ConnManager
taken s p = record s {
  round2_current_status = some (status_of s.config p);
  round2_next_seq = if is_round2_leader s then s.round2_next_seq else u16 (s.round2_next_seq + 1);
  round2_is_collector = p.collector_sl_id == s.config.sl_id;
  temporary_storage_of_preprepare = some p;
  send_queue =
      s.send_queue ++ partial_commit_to s.config p.view p.seq (recipient_of s.config p) ∷ [];
}

own_vote :
    (c : Config) (p : MessageRound2Preprepare)
    → own_partial_commit c (status_of c p) ≡ own_partial_commit c (place p.view p.seq)
unfolding own_partial_commit taken_up await
own_vote c p = ground arith

take_up_preprepare-taken :
    (h : Host) (s : ConnManager) (p : MessageRound2Preprepare)
    → s.temporary_storage_of_preprepare ≡ none
    → p.collector_sl_id < num_sl s.config s.config.bg_id
    → take_up_preprepare h s (round2_start_status (num_bg s.config)) p ≡ done (taken s p)
unfolding take_up_preprepare connection
take_up_preprepare-taken h s p empty member =
    let inside = lt→ltb p.collector_sl_id (num_sl s.config s.config.bg_id) member in
    let vote = own_vote s.config p in ground (arith, empty, inside, vote)

in_status-taken :
    (h : Host) (s : ConnManager) (e : QueueElement) (p : MessageRound2Preprepare)
    → s.temporary_storage_of_preprepare ≡ none
    → s.round2_next_view ≡ p.view
    → (s.round2_next_seq ≡ p.seq) ⊎ ((s.config.sl_id ≡ 0) × (p.seq ≤ s.round2_next_seq))
    → p.collector_sl_id < num_sl s.config s.config.bg_id
    → preprepare_in_status h s (round2_start_status (num_bg s.config)) e p ≡ done (taken s p)
unfolding preprepare_in_status round2_start_status
in_status-taken h s e p empty view order member =
    ground (arith, empty, take_up_preprepare-taken h s p empty member)

-- The status that a super leaf without one gives itself.
abbrev waiting : ConnManager → ConnManager
waiting s = record s { round2_current_status = some (round2_start_status (num_bg s.config)) }

dispatcher_round2_preprepare-taken :
    (h : Host) (s : ConnManager) (e : QueueElement) (p : MessageRound2Preprepare)
    → IsReady s p
    → p.collector_sl_id < num_sl s.config s.config.bg_id
    → dispatcher_round2_preprepare h s e p ≡ done (taken s p)
unfolding dispatcher_round2_preprepare
dispatcher_round2_preprepare-taken h s e p ready member = elim (ready.idle) [
  | inl none_yet ↦
      rw (none_yet, dispatcher_round2_preprepare)
        (in_status-taken h (waiting s) e p ready.nothing_stored ready.in_view ready.in_order member)
  | inr waits ↦
      ap
        (λ status. elim status [
          | none ↦ preprepare_in_status h (waiting s) (round2_start_status (num_bg s.config)) e p
          | some st ↦ preprepare_in_status h s st e p
        ])
        waits
      ∙ in_status-taken h s e p ready.nothing_stored ready.in_view ready.in_order member
]

-- The partial commit for a view and sequence number, as it is written, and as the collector gets it of
-- super leaf i.
abbrev pub written_partial_commit : Config → ℕ → ℕ → MessageRound2PartialCommit
written_partial_commit c view seq = record {
  header = record { version = 1; msg_type = 4; payload_len = 38 };
  sender = c.sl_id % 65536;
  view = view;
  seq = seq;
  signature = replicate 32 0;
}

abbrev pub vote_of : Nodes → MessageRound2Preprepare → ℕ → QueueElement × MessageRound2PartialCommit
vote_of leaves p i =
    let c = (leaves i).config in
    let vote = written_partial_commit c p.view p.seq in
    (record { up_peers = peer c.bg_id i ∷ []; message = partial_commit vote }, vote)

votes-AreValid :
    (s : ConnManager) (leaves : Nodes) (p : MessageRound2Preprepare) (st : CycleStatus)
    (order : List ℕ)
    → s.round2_verifier ≡ some fake_verifier
    → s.temporary_storage_of_preprepare ≡ some p
    → st.round2_view ≡ p.view
    → st.round2_sequence ≡ p.seq
    → AreValid s st (map (vote_of leaves p) order)
unfolding own_partial_commit
votes-AreValid s leaves p st [] verifier stored view seq = tt
votes-AreValid s leaves p st (i ∷ order) verifier stored view seq = (
  sym view,
  sym seq,
  (verify_partial_commit_fake s p verifier stored).1 (leaves i).config (place p.view p.seq),
  votes-AreValid s leaves p st order verifier stored view seq,
)

collector_status :
    (s : ConnManager) (p : MessageRound2Preprepare)
    → p.collector_sl_id ≡ s.config.sl_id
    → status_of s.config p
      ≡ await round2_collector_waiting_for_partialcommits 4
          (num_sl s.config s.config.bg_id)
          (record (round2_start_status (num_bg s.config)) {
            round2_view = p.view;
            round2_sequence = p.seq;
          })
unfolding taken_up await
collector_status s p own = ground (arith, own)

-- The message p of the leader, at the super leaves of a group.
module _ (h : Host) (leaves : Nodes) (p : MessageRound2Preprepare) where
  abbrev pub collector : ConnManager
  collector = leaves p.collector_sl_id

  -- What the collector sends behind its own partial commit.
  abbrev pub SendsFullCommit : List QueueElement → ConnManager → Type 0
  SendsFullCommit sends t =
      (peers : List Peer) × ReachesGroup collector.config peers
      × (t.send_queue
          ≡ sends
            ++ record {
              up_peers = peers;
              message = full_commit (written_full_commit collector.config p.view p.seq);
            }
              ∷ [])

  collector_sends :
      (order : List ℕ)
      → collector.config.sl_id ≡ p.collector_sl_id
      → p.collector_sl_id < num_sl collector.config collector.config.bg_id
      → collector.round2_verifier ≡ some fake_verifier
      → length order ≡ num_sl collector.config collector.config.bg_id
      → (t : ConnManager) × (dispatch_partial_commits h
            (taken collector p)
            (map (vote_of leaves p) order)
          ≡ done t)
        × SendsFullCommit (taken collector p).send_queue t
  unfolding await
  collector_sends order own member verifier all =
      let st =
        await round2_collector_waiting_for_partialcommits 4
          (num_sl collector.config collector.config.bg_id)
          (record (round2_start_status (num_bg collector.config)) {
            round2_view = p.view;
            round2_sequence = p.seq;
          }) in
      let (peers, reached, runs) =
        dispatch_partial_commits-all h (taken collector p) st (map (vote_of leaves p) order)
          (ap some (collector_status collector p (sym own)), (==_iff _ _).1 (sym own), refl)
          (votes-AreValid (taken collector p) leaves p st order verifier refl refl refl)
          (omega (arith, own, member))
          (omega (arith, all, member, length-map (vote_of leaves p) order))
          (omega (arith, all, length-map (vote_of leaves p) order)) in
      (_, runs, (peers, reached, refl))

  -- The members of the collector's group, numbered, are ready for the message.
  abbrev pub IsGroupReady : Type 0
  IsGroupReady =
      (i : ℕ)
      → i < num_sl collector.config collector.config.bg_id
      → ((leaves i).config ≡ record collector.config { sl_id = i }) × IsReady (leaves i) p

  -- The partial commit of a super leaf, to the collector.
  abbrev pub vote_sent : Config → QueueElement
  vote_sent c = record {
    up_peers = recipient_of c p ∷ [];
    message = partial_commit (written_partial_commit c p.view p.seq);
  }

  -- Let every super leaf of a group be ready for the message p: it has nothing stored, has no status or
  -- the one that the leader gives itself, and p is the next message of its view. Let p name a member of
  -- the group as its collector, which runs with fakeVerifier. Then every super leaf i that dispatches p
  -- sends its partial commit for the view and sequence number of p, with the version, type and length of
  -- its struct, to the collector. When the collector dispatches p and then as many such partial commits
  -- as the group has super leaves, each as one of them makes it, in any order, it sends its own partial
  -- commit and then the full commit for p, with the version, type and length of its struct, to every
  -- super leaf of the group, itself included, once, and to nobody else.
  pub group_commits :
      (e : QueueElement) (order : List ℕ) (i : ℕ)
      → IsGroupReady
      → p.collector_sl_id < num_sl collector.config collector.config.bg_id
      → collector.round2_verifier ≡ some fake_verifier
      → length order ≡ num_sl collector.config collector.config.bg_id
      → i < num_sl collector.config collector.config.bg_id
      → ((s : ConnManager) × (dispatcher_round2_preprepare h (leaves i) e p ≡ done s)
          × (s.send_queue ≡ (leaves i).send_queue ++ vote_sent (leaves i).config ∷ []))
        × ((t : ConnManager) × ((dispatcher_round2_preprepare h collector e p >>= λ s.
                dispatch_partial_commits h s (map (vote_of leaves p) order))
              ≡ done t)
            × SendsFullCommit (collector.send_queue ++ vote_sent collector.config ∷ []) t)
  unfolding num_sl own_partial_commit
  group_commits e order i ready member verifier all l =
      let (own, collector_ready) = ready p.collector_sl_id member in
      let (t, runs, sends) =
        collector_sends order (ap (λ (c : Config). c.sl_id) own) member verifier all in
      (
        (
          taken (leaves i) p,
          dispatcher_round2_preprepare-taken h (leaves i) e p (ready i l).1
              (rw (ready i l).0 member),
          refl,
        ),
        (
          t,
          rw (dispatcher_round2_preprepare-taken h collector e p collector_ready member) runs,
          sends,
        ),
      )
