-- ===== src/Manager.antt =====
-- ConnManager.h, CycleStatus.h, QueueElement.h and MockStorage.h: the state of a node.
pub mod Recipients
use rcanopus_membership.Prelude.{
  Bool-cases, inl, inr, ==_iff, ℕ, zero, suc, ◌≤◌, ◌≡◌, refl, sym, ap, ◌∙◌, Bool, true, false, ltb,
  ◌==◌, if◌then◌else◌, List, [], ◌∷◌, ◌++◌, Option, none, some, get_elem?, replicate,
}
use rcanopus_membership.Config.{Config, num_sl}
use rcanopus_membership.Outcome.{Outcome, done, undefined}
use rcanopus_membership.Message.{
  Message, MessageRound2Preprepare, MessageRound3FetchResponse, MessageRound3FullMembership,
  message_invalid, message_round2_preprepare,
}

pub data CycleState : Type 0 where
  not_started round2_waiting_for_preprepare : CycleState
  round2_collector_waiting_for_partialcommits round2_waiting_for_fullcommit : CycleState
  round2_committed round3_waiting_for_replicated_results : CycleState
  round3_waiting_for_local_connectivity round3_waiting_for_replicated_connectivity : CycleState
  round3_waiting_for_local_membership round3_waiting_for_replicated_membership : CycleState
  round3_committed round3_waiting_for_preprepare_baseline : CycleState
  round3_collector_waiting_for_partialcommits_baseline : CycleState
  round3_waiting_for_fullcommit_baseline : CycleState

-- The enumerators as numbers, by which states are compared.
abbrev pub state_code : CycleState → ℕ
state_code not_started = 0
state_code round2_waiting_for_preprepare = 1
state_code round2_collector_waiting_for_partialcommits = 2
state_code round2_waiting_for_fullcommit = 3
state_code round2_committed = 4
state_code round3_waiting_for_replicated_results = 5
state_code round3_waiting_for_local_connectivity = 6
state_code round3_waiting_for_replicated_connectivity = 7
state_code round3_waiting_for_local_membership = 8
state_code round3_waiting_for_replicated_membership = 9
state_code round3_committed = 10
state_code round3_waiting_for_preprepare_baseline = 11
state_code round3_collector_waiting_for_partialcommits_baseline = 12
state_code round3_waiting_for_fullcommit_baseline = 13

abbrev code_state : ℕ → CycleState
code_state zero = not_started
code_state (suc zero) = round2_waiting_for_preprepare
code_state (suc (suc zero)) = round2_collector_waiting_for_partialcommits
code_state (suc (suc (suc zero))) = round2_waiting_for_fullcommit
code_state (suc (suc (suc (suc zero)))) = round2_committed
code_state (suc (suc (suc (suc (suc zero))))) = round3_waiting_for_replicated_results
code_state (suc (suc (suc (suc (suc (suc zero)))))) = round3_waiting_for_local_connectivity
code_state (suc (suc (suc (suc (suc (suc (suc zero))))))) =
    round3_waiting_for_replicated_connectivity
code_state (suc (suc (suc (suc (suc (suc (suc (suc zero)))))))) =
    round3_waiting_for_local_membership
code_state (suc (suc (suc (suc (suc (suc (suc (suc (suc zero))))))))) =
    round3_waiting_for_replicated_membership
code_state (suc (suc (suc (suc (suc (suc (suc (suc (suc (suc zero)))))))))) = round3_committed
code_state (suc (suc (suc (suc (suc (suc (suc (suc (suc (suc (suc zero))))))))))) =
    round3_waiting_for_preprepare_baseline
code_state (suc (suc (suc (suc (suc (suc (suc (suc (suc (suc (suc (suc zero)))))))))))) =
    round3_collector_waiting_for_partialcommits_baseline
code_state _ = round3_waiting_for_fullcommit_baseline

code_state-state_code : (c : CycleState) → code_state (state_code c) ≡ c
code_state-state_code not_started = refl
code_state-state_code round2_waiting_for_preprepare = refl
code_state-state_code round2_collector_waiting_for_partialcommits = refl
code_state-state_code round2_waiting_for_fullcommit = refl
code_state-state_code round2_committed = refl
code_state-state_code round3_waiting_for_replicated_results = refl
code_state-state_code round3_waiting_for_local_connectivity = refl
code_state-state_code round3_waiting_for_replicated_connectivity = refl
code_state-state_code round3_waiting_for_local_membership = refl
code_state-state_code round3_waiting_for_replicated_membership = refl
code_state-state_code round3_committed = refl
code_state-state_code round3_waiting_for_preprepare_baseline = refl
code_state-state_code round3_collector_waiting_for_partialcommits_baseline = refl
code_state-state_code round3_waiting_for_fullcommit_baseline = refl

pub state_code-injective : (a b : CycleState) → state_code a ≡ state_code b → a ≡ b
state_code-injective a b h =
    sym (code_state-state_code a) ∙ (ap code_state h ∙ code_state-state_code b)

-- The vectors hold the messages of the queue elements that the source keeps there; the senders
-- beside them are cleared before any use.
pub record CycleStatus : Type 0 where
  pub message_received_counter : ℕ
  pub message_required : ℕ
  pub awaiting_message_type : ℕ
  pub round2_view : ℕ
  pub round2_sequence : ℕ
  pub state : CycleState
  pub fetch_response : List (Option MessageRound3FetchResponse)
  pub connectivity_response : List (Option MessageRound3FetchResponse)
  pub membership_response : List (Option MessageRound3FullMembership)

-- The constructor. It leaves the view and the sequence number unset: 0 stands for what is there.
unfoldable pub new_cycle_status : ℕ → CycleStatus
new_cycle_status num_bg = record {
  message_received_counter = 0;
  message_required = 0;
  awaiting_message_type = message_invalid;
  round2_view = 0;
  round2_sequence = 0;
  state = not_started;
  fetch_response = replicate num_bg none;
  connectivity_response = replicate num_bg none;
  membership_response = replicate num_bg none;
}

-- A PeerConnection pointer: nullptr (POINTER_TO_SELF) or an entry of rgrgConnection.
pub data Peer : Type 0 where
  self : Peer
  peer : ℕ → ℕ → Peer

pub record QueueElement : Type 0 where
  pub up_peers : List Peer
  pub message : Message

-- A verifier gets the bytes of a message and a signature.
abbrev pub SigVerifier : Type 0
SigVerifier = List ℕ → List ℕ → Bool

-- A value of type ConnManager, less its sockets and the times that it prints.
pub record ConnManager : Type 0 where
  pub config : Config
  pub recv_queue : List QueueElement
  pub juggle_queue : List QueueElement
  pub send_queue : List QueueElement
  pub client_queue : List QueueElement
  pub engine : ℕ
  pub map_round3_status : List (ℕ × CycleStatus)
  pub map_round3_pending_fetch_requests : List (ℕ × List (ℕ × ℕ))
  pub map_round3_pending_connectivity_requests : List (ℕ × List (ℕ × ℕ))
  pub map_round3_pending_membership_requests : List (ℕ × List (ℕ × ℕ))
  pub map_cycle_submission_time : List (ℕ × ℕ)
  pub rg_leader_batch_received_from : List ℕ
  pub leader_batch_received_from_self : ℕ
  pub leader_batch_processed : ℕ
  pub leader_round2_next_rcanopus_cycle : ℕ
  pub round2_next_view : ℕ
  pub round2_next_seq : ℕ
  pub round2_current_status : Option CycleStatus
  pub temporary_storage_of_preprepare : Option MessageRound2Preprepare
  pub leader_round2_pending_preprepare_raw : List MessageRound2Preprepare
  pub leader_collector_rr : ℕ
  pub leader_envoys_rr : ℕ
  pub round2_is_collector : Bool
  pub round2_verifier : Option SigVerifier
  pub storage : List ℕ
  pub fake_round3_response_for_baseline : Option MessageRound3FetchResponse

-- What the program is built and run with: DEBUG_FAILFAST, and the random engine, whose n-th draw
-- from 0 to a bound is `draw n bound`.
pub record Host : Type 0 where
  pub debug_failfast : Bool
  pub draw : ℕ → ℕ → ℕ
  pub draw-le : (n bound : ℕ) → draw n bound ≤ bound

-- isRound2Leader.
unfoldable pub is_round2_leader : ConnManager → Bool
is_round2_leader s = s.config.sl_id == 0

-- juggle, and the enqueue of sendQueue.
unfoldable pub juggle : ConnManager → QueueElement → ConnManager
juggle s e = record s { juggle_queue = s.juggle_queue ++ e ∷ [] }

unfoldable pub send : ConnManager → QueueElement → ConnManager
send s e = record s { send_queue = s.send_queue ++ e ∷ [] }

-- &rgrgConnection[bg][sl], to be dereferenced by the sender.
unfoldable pub connection : Config → ℕ → ℕ → Outcome Peer
connection c bg sl = if ltb sl (num_sl c bg) then done (peer bg sl) else undefined

-- A group's super leaves but one, in the order in which push_front leaves them.
unfoldable pub push_group : ℕ → ℕ → ℕ → List Peer
push_group bg but zero = []
push_group bg but (suc n) =
    let rest = push_group bg but n in if n == but then rest else peer bg n ∷ rest

-- The recipients of a broadcast in the group, the node itself first.
unfoldable pub broadcast_peers : Config → List Peer
unfolding push_group
broadcast_peers c = self ∷ push_group c.bg_id c.sl_id (num_sl c c.bg_id)

-- MockStorage: store and exist.
unfoldable pub storage_exist : ℕ → List ℕ → Bool
storage_exist x [] = false
storage_exist x (y ∷ ys) = if y == x then true else storage_exist x ys

unfoldable pub storage_store : ℕ → List ℕ → List ℕ
unfolding storage_exist
storage_store x ys = if storage_exist x ys then ys else x ∷ ys

pub storage_exist-store :
    (x y : ℕ) (ys : List ℕ)
    → storage_exist x (storage_store y ys) ≡ (if y == x then true else storage_exist x ys)
unfolding storage_store
storage_exist-store x y ys = elim (Bool-cases (storage_exist y ys)) [
  | inl old ↦ rw old (elim (Bool-cases (y == x)) [
    | inl e ↦ let same : y ≡ x = (==_iff y x).0 e in rw e (rw same at old)
    | inr e ↦ rw e
  ])
  | inr new ↦ rw new
]

-- v[i] of a vector.
abbrev pub at {ℓ} : {A : Type ℓ} → List A → ℕ → Outcome A
at v i = elim (get_elem? v i) [ none ↦ undefined | some a ↦ done a ]

abbrev pub is_none {ℓ} : {A : Type ℓ} → Option A → Bool
is_none none = true
is_none (some _) = false

-- The counters and the state that a handler sets together.
unfoldable pub await : CycleState → ℕ → ℕ → CycleStatus → CycleStatus
await state type required st = record st {
  state = state;
  awaiting_message_type = type;
  message_received_counter = 0;
  message_required = required;
}

-- The status that a node enters Round 2 with.
unfoldable pub round2_start_status : ℕ → CycleStatus
unfolding new_cycle_status await
round2_start_status num_bg =
    await round2_waiting_for_preprepare message_round2_preprepare 1 (new_cycle_status num_bg)

-- ==, on states.
abbrev pub is_state : CycleState → CycleStatus → Bool
is_state c st = state_code st.state == state_code c
