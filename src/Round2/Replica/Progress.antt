-- ===== src/Round2/Replica/Progress.antt =====
-- The collector of a message counts the partial commits of its group.
use rcanopus_membership.Manager.Recipients.{ReachesGroup, broadcast_peers-ReachesGroup}
use rcanopus_membership.Config.{Config, num_sl}
use native.Mathlib.Nat.{add-zero}
use rcanopus_membership.Prelude.{
  ◌%◌, replicate, ℕ, ◌+◌, ◌<◌, ◌≡◌, refl, ap, ◌∙◌, true, List, [], ◌∷◌, ◌++◌, some, length, arith,
}
use rcanopus_membership.Outcome.{Outcome, done, ◌>>=◌}
use rcanopus_membership.Message.{MessageRound2FullCommit, MessageRound2PartialCommit, full_commit}
use rcanopus_membership.Manager.{
  Peer, ConnManager, Host, CycleStatus, QueueElement, broadcast_peers, await,
  round2_collector_waiting_for_partialcommits, round2_waiting_for_fullcommit,
}
use rcanopus_membership.Round2.Replica.{
  own_full_commit, verify_partial_commit, count_partial_commit, partial_commit_in_status,
  dispatcher_round2_partial_commit,
}

-- Partial commits that are dispatched one after the other, each with its queue element.
unfoldable pub dispatch_partial_commits :
    Host → ConnManager → List (QueueElement × MessageRound2PartialCommit) → Outcome ConnManager
dispatch_partial_commits h s [] = done s
dispatch_partial_commits h s (c ∷ commits) =
    dispatcher_round2_partial_commit h s (c.0) (c.1) >>= λ s'. dispatch_partial_commits h s' commits

-- The node collects partial commits for the message of st.
abbrev pub IsCollecting : ConnManager → CycleStatus → Type 0
IsCollecting s st =
    (s.round2_current_status ≡ some st)
    × (s.round2_is_collector ≡ true)
    × (st.state ≡ round2_collector_waiting_for_partialcommits)

-- The partial commits are of that message, and the verifier accepts their signatures.
abbrev pub AreValid :
    ConnManager → CycleStatus → List (QueueElement × MessageRound2PartialCommit) → Type 0
AreValid s st [] = Unit
AreValid s st ((e, p) ∷ commits) =
    (p.view ≡ st.round2_view)
    × (p.seq ≡ st.round2_sequence)
    × (verify_partial_commit s p ≡ done true)
    × AreValid s st commits

counted :
    (h : Host) (s : ConnManager) (st : CycleStatus) (e : QueueElement)
    (p : MessageRound2PartialCommit)
    → IsCollecting s st
    → p.view ≡ st.round2_view
    → p.seq ≡ st.round2_sequence
    → verify_partial_commit s p ≡ done true
    → dispatcher_round2_partial_commit h s e p ≡ done (count_partial_commit s st)
unfolding dispatcher_round2_partial_commit partial_commit_in_status
counted h s st e p c view seq valid = ground (arith, valid)

-- The node after n of the partial commits, less than all.
abbrev counting : ConnManager → CycleStatus → ConnManager
counting s st = record s {
  round2_current_status =
      some (record st { message_received_counter = st.message_received_counter + 1 });
}

AreValid-next :
    (s : ConnManager) (st : CycleStatus)
    (commits : List (QueueElement × MessageRound2PartialCommit))
    → AreValid s st commits
    → AreValid
        (counting s st)
        (record st { message_received_counter = st.message_received_counter + 1 })
        commits
unfolding verify_partial_commit
AreValid-next s st [] valid = tt
AreValid-next s st (c ∷ commits) valid =
    (valid.0, valid.1, valid.2, AreValid-next s st commits valid.3)

one_of_many :
    (s : ConnManager) (st : CycleStatus)
    → st.message_received_counter + 1 < st.message_required
    → count_partial_commit s st ≡ counting s st
unfolding count_partial_commit
one_of_many s st h = ground arith

-- Partial commits for the message that the node collects for, which the verifier accepts and which
-- are fewer than are still missing, only count: the counter goes up by their number, and the node
-- sends nothing and stays as it is otherwise.
pub dispatch_partial_commits-below :
    (h : Host) (s : ConnManager) (st : CycleStatus)
    (commits : List (QueueElement × MessageRound2PartialCommit))
    → IsCollecting s st
    → AreValid s st commits
    → st.message_received_counter + length commits < st.message_required
    → dispatch_partial_commits h s commits
      ≡ done (record s {
        round2_current_status =
            some (record st {
              message_received_counter = st.message_received_counter + length commits;
            });
      })
unfolding dispatch_partial_commits
dispatch_partial_commits-below h s st [] c valid below = rw (add-zero, ← c.0) refl
dispatch_partial_commits-below h s st ((e, p) ∷ commits) c valid below =
    rw (counted h s st e p c valid.0 valid.1 valid.2, one_of_many s st (omega arith))
      (dispatch_partial_commits-below h (counting s st) _ commits (refl, c.1, c.2)
          (AreValid-next s st commits valid.3) (omega arith)
        ∙ ap
            (λ (n : ℕ). done (record s {
              round2_current_status = some (record st { message_received_counter = n });
            }))
            (omega arith))

votes_complete :
    (h : Host) (s : ConnManager) (st : CycleStatus)
    (commits : List (QueueElement × MessageRound2PartialCommit))
    → IsCollecting s st
    → AreValid s st commits
    → 0 < length commits
    → st.message_received_counter + length commits ≡ st.message_required
    → dispatch_partial_commits h s commits
      ≡ done (record s {
        round2_current_status = some (await round2_waiting_for_fullcommit 5 1 st);
        send_queue =
            s.send_queue
            ++ record {
              up_peers = broadcast_peers s.config;
              message = full_commit (own_full_commit s.config st);
            }
              ∷ [];
      })
unfolding dispatch_partial_commits count_partial_commit await own_full_commit
votes_complete h s st [] c valid some_left all = absurd (omega arith)
votes_complete h s st ((e, p) ∷ []) c valid some_left all =
    rw (counted h s st e p c valid.0 valid.1 valid.2) (ground arith)
votes_complete h s st ((e, p) ∷ next ∷ commits) c valid some_left all =
    rw (counted h s st e p c valid.0 valid.1 valid.2, one_of_many s st (omega arith))
      (votes_complete h (counting s st) _ (next ∷ commits) (refl, c.1, c.2)
        (AreValid-next s st (next ∷ commits) valid.3) (omega arith) (omega arith))

-- The full commit for a view and sequence number, as it is written.
abbrev pub written_full_commit : Config → ℕ → ℕ → MessageRound2FullCommit
written_full_commit c view seq = record {
  header = record { version = 1; msg_type = 5; payload_len = 38 };
  sender = c.sl_id % 65536;
  view = view;
  seq = seq;
  combined_signature = replicate 32 0;
}

-- At least one and exactly as many partial commits as are still missing, for the message that a member
-- of the group collects for and with signatures that the verifier accepts, make it send one full commit,
-- with the version, type and length of its struct and the view and sequence number of the message, to
-- every member of its group, itself included, once, and to nobody else, and wait for a full commit.
pub dispatch_partial_commits-all :
    (h : Host) (s : ConnManager) (st : CycleStatus)
    (commits : List (QueueElement × MessageRound2PartialCommit))
    → IsCollecting s st
    → AreValid s st commits
    → s.config.sl_id < num_sl s.config s.config.bg_id
    → 0 < length commits
    → st.message_received_counter + length commits ≡ st.message_required
    → (peers : List Peer) × ReachesGroup s.config peers
      × (dispatch_partial_commits h s commits
          ≡ done (record s {
            round2_current_status = some (record st {
              state = round2_waiting_for_fullcommit;
              awaiting_message_type = 5;
              message_received_counter = 0;
              message_required = 1;
            });
            send_queue =
                s.send_queue
                ++ record {
                  up_peers = peers;
                  message =
                      full_commit (written_full_commit s.config st.round2_view st.round2_sequence);
                }
                  ∷ [];
          }))
unfolding await own_full_commit
dispatch_partial_commits-all h s st commits c valid place some_left all = (
  broadcast_peers s.config,
  broadcast_peers-ReachesGroup s.config place,
  votes_complete h s st commits c valid some_left all,
)
