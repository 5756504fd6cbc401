-- ===== src/Threads/Progress.antt =====
-- ConnManager.cpp, start: what the main thread of a node at work can take.
use rcanopus_membership.Prelude.{◌≤◌, ◌<◌, ◌≡◌, sym, ap, ◌∙◌, false}
use rcanopus_membership.Outcome.{done}
use rcanopus_membership.Config.{num_sl, get_f}
use rcanopus_membership.Message.Wire.{ByteOrder}
use rcanopus_membership.Manager.{ConnManager, Host, QueueElement, is_none}
use rcanopus_membership.Dispatcher.{dispatcher_round2}
use rcanopus_membership.Invariant.{Setup, set_config}
use rcanopus_membership.Invariant.Loop.{membership_variant}
use rcanopus_membership.Invariant.Returns.{IsProposal, dispatcher_round2-returns}
use rcanopus_membership.Threads.Interleaving.{Node, Reach, IsSound, Reach-IsSound}

-- A node that is set up in a group with super leaves, and no more failures than that: it has a verifier
-- and, if it leads its group, a batch counter for every super leaf.
abbrev pub IsSetUp : Setup → Type 0
IsSetUp x =
    (0 < num_sl (set_config x) (set_config x).bg_id)
    × ((set_config x).sl_id ≡ 0 → x.2 ≡ num_sl (set_config x) (set_config x).bg_id)
    × (is_none x.1 ≡ false)
    × (get_f (set_config x) (set_config x).bg_id ≤ num_sl (set_config x) (set_config x).bg_id)

-- Let a node without DEBUG_FAILFAST be set up in a group with super leaves, with no more failures
-- than super leaves, a verifier and, if it leads the group, a batch counter for every super leaf, and
-- start sound. However its threads then run, at any time the
-- dispatch of a request, preprepare or partial commit, with the version and the type right and the
-- collector in the group, returns.
pub proposals_return :
    (h : Host) (o : ByteOrder) (x : Setup) {n m : Node}
    → IsSetUp x
    → IsSound membership_variant (record h { debug_failfast = false }) o x n
    → Reach membership_variant (record h { debug_failfast = false }) o n m
    → (e : QueueElement) → IsProposal m.manager e.message
    → (s : ConnManager) × (dispatcher_round2 (record h { debug_failfast = false }) m.manager e
        ≡ done s)
proposals_return h o x {n} {m} (pos, batches, verifier, few) start reach e shape =
    let sound =
      Reach-IsSound membership_variant (record h { debug_failfast = false }) o x pos reach start in
    let same = sound.as_set_up in
    let (s, returns, handled) =
      dispatcher_round2-returns h m.manager e.up_peers e.message (rw (ap set_config same) pos)
        (λ leads.
          ap (λ (y : Setup). y.2) same
          ∙ batches (ap (λ (y : Setup). (set_config y).sl_id) (sym same) ∙ leads)
          ∙ ap (λ (y : Setup). num_sl (set_config y) (set_config y).bg_id) (sym same))
        (λ _. rw (ap set_config same) few) (ap (λ (y : Setup). is_none y.1) same ∙ verifier)
        sound.round2_ok shape in
    (s, returns)
