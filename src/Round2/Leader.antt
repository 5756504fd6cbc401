-- ===== src/Round2/Leader.antt =====
-- ConnManager.cpp: the leader of a group proposes the next message (canStartRound2,
-- leader_round2_sendPreprepare, dispatcher_round2_request).
pub mod Envoys
pub mod Queue
pub mod Proposal
pub mod Length
use rcanopus_membership.Prelude.{
  ℕ, zero, suc, ◌+◌, ◌-◌, ◌*◌, Bool, true, false, not, ◌&&◌, ltb, leb, ◌==◌, if◌then◌else◌, List,
  [], ◌∷◌, ◌++◌, Option, none, some, u8, u16, u32, get_elem?, set, replicate, length,
}
use rcanopus_membership.Const.{version_latest, request_batch_size, request_type_from_client}
use rcanopus_membership.Outcome.{
  Outcome, done, thrown, undefined, unexpected, ◌>>=◌, ◌>>◌, debug_throw, debug_throw_else_return,
}
use rcanopus_membership.Config.{Config, num_bg, num_sl, get_f}
use rcanopus_membership.Message.{
  MessageRound2Request, MessageRound2Preprepare, preprepare, message_round2_preprepare,
}
use rcanopus_membership.Message.Image.{bytes16}
use rcanopus_membership.Manager.{
  ConnManager, Host, QueueElement, is_round2_leader, send, broadcast_peers, at, is_none,
  round2_start_status,
}

-- rr++ and the wrap to 0 at the number of super leaves.
unfoldable pub next_round_robin : ℕ → ℕ → ℕ
next_round_robin num rr = let next = u16 (rr + 1) in if next == num then 0 else next

-- The loop that writes the participants: the envoys chosen and the next leader_envoys_rr.
unfoldable pub choose_envoys : ℕ → ℕ → ℕ → List ℕ × ℕ
choose_envoys num zero rr = ([], rr)
choose_envoys num (suc n) rr =
    let (rest, last) = choose_envoys num n (next_round_robin num rr) in (rr ∷ rest, last)

-- The participants as they lie in the buffer.
unfoldable pub field_bytes : List ℕ → List ℕ → List ℕ
field_bytes [] content = content
field_bytes (x ∷ xs) content = bytes16 x (field_bytes xs content)

unfoldable pub cmp_request_type : MessageRound2Preprepare → MessageRound2Preprepare → Bool
cmp_request_type x y = ltb x.request_type y.request_type

-- top and pop of the priority queue x, xs. Of several greatest elements std::priority_queue may give
-- any; here it is the oldest.
unfoldable pub pop_top :
    MessageRound2Preprepare
    → List MessageRound2Preprepare
    → MessageRound2Preprepare × List MessageRound2Preprepare
unfolding cmp_request_type
pop_top x [] = (x, [])
pop_top x (y ∷ ys) =
    let (top, rest) = pop_top (if cmp_request_type x y then y else x) ys in
    (top, (if cmp_request_type x y then x else y) ∷ rest)

-- The loop of canStartRound2 over the other super leaves.
unfoldable pub all_ahead : ℕ → List ℕ → Bool
all_ahead processed [] = true
all_ahead processed (received ∷ rest) =
    if leb received processed then false else all_ahead processed rest

-- The first entry of rgLeader_batch_received_from is that of the leader, and is not read.
unfoldable pub batches_ready : ConnManager → Bool
unfolding all_ahead
batches_ready s = elim s.rg_leader_batch_received_from [
  | [] ↦ ltb s.leader_batch_processed s.leader_batch_received_from_self
  | _ ∷ others ↦
      all_ahead s.leader_batch_processed others
      && ltb s.leader_batch_processed s.leader_batch_received_from_self
]

unfoldable pub round2_ready : ConnManager → Bool
unfolding batches_ready
round2_ready s =
    if is_none s.round2_current_status
    then (elim s.leader_round2_pending_preprepare_raw [ [] ↦ batches_ready s | _ ∷ _ ↦ true ])
    else false

-- canStartRound2. A node that does not lead its group has null pointers for the pending messages, which
-- are read if there is no status, and for the counters.
unfoldable pub can_start_round2 : Host → ConnManager → Outcome Bool
unfolding round2_ready is_round2_leader
can_start_round2 h s = do
  debug_throw h.debug_failfast (is_round2_leader s)
  if is_none s.round2_current_status && not (is_round2_leader s)
      then undefined
      else done (round2_ready s)

-- The leader's own message: the batches of the group, and the envoys for Round 3. The fields that
-- every message gets afterwards are 0 here. The length in the header leaves out the struct. This is for
-- a group with no more failures than super leaves.
unfoldable pub fill_preprepare : ConnManager → MessageRound2Preprepare × ConnManager
unfolding choose_envoys field_bytes
fill_preprepare s =
    let num = num_sl s.config s.config.bg_id in
    let round3_participants_num = num - get_f s.config s.config.bg_id in
    let request_size = num * request_batch_size in
    let payload_size = 2 * round3_participants_num + request_size in
    let cycle = s.leader_round2_next_rcanopus_cycle in
    let (envoys, rr) = choose_envoys num round3_participants_num s.leader_envoys_rr in
    (
      record {
        header = record {
          version = version_latest;
          msg_type = message_round2_preprepare;
          payload_len = u32 payload_size;
        };
        sender = u16 s.config.sl_id;
        view = 0;
        seq = 0;
        bg_id = u16 s.config.bg_id;
        request_type = request_type_from_client;
        cycle = cycle;
        lastcycle = u16 (cycle + 65535);
        collector_sl_id = 0;
        num_of_round3_participants = u16 round3_participants_num;
        participants_and_content = field_bytes envoys (replicate request_size (u8 cycle));
      },
      record s {
        leader_round2_next_rcanopus_cycle = u16 (cycle + 1);
        leader_batch_processed = s.leader_batch_processed + 1;
        leader_envoys_rr = rr;
      },
    )

-- With more failures than super leaves the number of participants is negative: the buffer is too small,
-- and the memset begins before the content.
unfoldable pub create_preprepare : ConnManager → Outcome (MessageRound2Preprepare × ConnManager)
unfolding fill_preprepare
create_preprepare s =
    if ltb (num_sl s.config s.config.bg_id) (get_f s.config s.config.bg_id)
    then undefined
    else done (fill_preprepare s)

-- The top of the pending messages, or else a new one.
unfoldable pub take_preprepare :
    Host → ConnManager → Outcome (MessageRound2Preprepare × ConnManager)
unfolding create_preprepare pop_top
take_preprepare h s = elim s.leader_round2_pending_preprepare_raw [
  | [] ↦ create_preprepare s
  | x ∷ xs ↦ do
    let (top, rest) = pop_top x xs
    debug_throw h.debug_failfast (top.header.msg_type == message_round2_preprepare)
    debug_throw h.debug_failfast (top.num_of_round3_participants == 0)
    done (top, record s { leader_round2_pending_preprepare_raw = rest })
]

-- "common parts".
unfoldable pub broadcast_preprepare : MessageRound2Preprepare → ConnManager → ConnManager
unfolding next_round_robin send broadcast_peers
broadcast_preprepare p s =
    let q = record p {
      view = s.round2_next_view;
      seq = s.round2_next_seq;
      collector_sl_id = s.leader_collector_rr;
    } in
    send
      (record s {
        round2_next_seq = u16 (s.round2_next_seq + 1);
        leader_collector_rr =
            next_round_robin (num_sl s.config s.config.bg_id) s.leader_collector_rr;
      })
      (record { up_peers = broadcast_peers s.config; message = preprepare q })

-- leader_round2_sendPreprepare.
unfoldable pub leader_round2_send_preprepare : Host → ConnManager → Outcome ConnManager
unfolding can_start_round2 take_preprepare broadcast_preprepare round2_start_status
leader_round2_send_preprepare h s = do
  debug_throw h.debug_failfast (is_round2_leader s)
  ready ← can_start_round2 h s
  debug_throw h.debug_failfast ready
  if is_none s.round2_current_status
      then (do
        let s' = record s { round2_current_status = some (round2_start_status (num_bg s.config)) }
        (p, s'') ← take_preprepare h s'
        done (broadcast_preprepare p s''))
      else thrown unexpected

-- "if(canStartRound2()) leader_round2_sendPreprepare();"
unfoldable pub start_round2_if_possible : Host → ConnManager → Outcome ConnManager
unfolding leader_round2_send_preprepare
start_round2_if_possible h s = do
  ready ← can_start_round2 h s
  if ready then leader_round2_send_preprepare h s else done s

-- dispatcher_round2_request.
unfoldable pub dispatcher_round2_request :
    Host → ConnManager → QueueElement → MessageRound2Request → Outcome ConnManager
unfolding start_round2_if_possible
dispatcher_round2_request h s e p =
    if is_round2_leader s
    then debug_throw_else_return h.debug_failfast (ltb p.sender (num_sl s.config s.config.bg_id)) s
        (do
          received ← at s.rg_leader_batch_received_from p.sender
          start_round2_if_possible h (record s {
            rg_leader_batch_received_from =
                set s.rg_leader_batch_received_from p.sender (received + 1);
          }))
    else (do debug_throw h.debug_failfast false; done (send s e))
