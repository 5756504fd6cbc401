-- ===== src/Message/Wire/Baseline.antt =====
-- message.cpp: the conversion of the messages of the baseline, and the two switches on msgType of
-- ConnManager_Baseline.cpp (sender and recvMessage_caller_free_mem).
use rcanopus_membership.Prelude.{ℕ, ◌==◌, if◌then◌else◌, ◌≡◌, arith}
use rcanopus_membership.Outcome.{Outcome, done, thrown, undefined, invalid_type, ◌>>=◌}
use rcanopus_membership.Message.{
  MessageRound3PreprepareBaseline, MessageRound3PartialCommitBaseline,
  MessageRound3FullCommitBaseline, Message, preprepare_baseline, partial_commit_baseline,
  full_commit_baseline, message_header, MessageKind, kind_of, kind_general_fetch,
  kind_connectivity_response, kind_membership_response, message_round3_preprepare_baseline,
  message_round3_partial_commit_baseline, message_round3_full_commit_baseline,
}
use rcanopus_membership.Message.Wire.{
  ByteOrder, to_be, from_be, serialize_header, serialize_as, deserialize_first, deserialize_as,
}
use rcanopus_membership.Message.Wire.RoundTrip.{
  Word16, HeaderFits, from_be-to_be, deserialize-serialize_header,
}

pub serialize_preprepare_baseline :
    ByteOrder → MessageRound3PreprepareBaseline → MessageRound3PreprepareBaseline
serialize_preprepare_baseline o p = record p {
  header = serialize_header o p.header;
  sender = to_be o 2 p.sender;
  cycle = to_be o 2 p.cycle;
  collector_bg_id = to_be o 2 p.collector_bg_id;
}

pub partial_deserialize_preprepare_baseline :
    ByteOrder → MessageRound3PreprepareBaseline → MessageRound3PreprepareBaseline
partial_deserialize_preprepare_baseline o p = record p {
  sender = from_be o 2 p.sender;
  cycle = from_be o 2 p.cycle;
  collector_bg_id = from_be o 2 p.collector_bg_id;
}

pub serialize_partial_commit_baseline :
    ByteOrder → MessageRound3PartialCommitBaseline → MessageRound3PartialCommitBaseline
serialize_partial_commit_baseline o p = record p {
  header = serialize_header o p.header;
  sender = to_be o 2 p.sender;
  cycle = to_be o 2 p.cycle;
}

pub partial_deserialize_partial_commit_baseline :
    ByteOrder → MessageRound3PartialCommitBaseline → MessageRound3PartialCommitBaseline
partial_deserialize_partial_commit_baseline o p = record p {
  sender = from_be o 2 p.sender;
  cycle = from_be o 2 p.cycle;
}

pub serialize_full_commit_baseline :
    ByteOrder → MessageRound3FullCommitBaseline → MessageRound3FullCommitBaseline
serialize_full_commit_baseline o p = record p {
  header = serialize_header o p.header;
  sender = to_be o 2 p.sender;
  cycle = to_be o 2 p.cycle;
}

pub partial_deserialize_full_commit_baseline :
    ByteOrder → MessageRound3FullCommitBaseline → MessageRound3FullCommitBaseline
partial_deserialize_full_commit_baseline o p = record p {
  sender = from_be o 2 p.sender;
  cycle = from_be o 2 p.cycle;
}

-- The cases of the baseline's switches: its own three, and those that it shares with the others.
pub data BaselineKind : Type 0 where
  kind_preprepare_baseline kind_partial_commit_baseline kind_full_commit_baseline : BaselineKind
  kind_common : MessageKind → BaselineKind

unfoldable pub baseline_kind_of : ℕ → BaselineKind
baseline_kind_of t =
    if t == message_round3_preprepare_baseline
    then kind_preprepare_baseline
    else if t == message_round3_partial_commit_baseline
    then kind_partial_commit_baseline
    else if t == message_round3_full_commit_baseline
    then kind_full_commit_baseline
    else kind_common (kind_of t)

-- The switch of sender: the baseline has no connectivity or membership messages.
pub serialize_as_baseline : ByteOrder → BaselineKind → Message → Outcome Message
serialize_as_baseline o kind_preprepare_baseline (preprepare_baseline p) =
    done (preprepare_baseline (serialize_preprepare_baseline o p))
serialize_as_baseline o kind_partial_commit_baseline (partial_commit_baseline p) =
    done (partial_commit_baseline (serialize_partial_commit_baseline o p))
serialize_as_baseline o kind_full_commit_baseline (full_commit_baseline p) =
    done (full_commit_baseline (serialize_full_commit_baseline o p))
serialize_as_baseline o (kind_common kind_general_fetch) m = thrown invalid_type
serialize_as_baseline o (kind_common kind_connectivity_response) m = thrown invalid_type
serialize_as_baseline o (kind_common kind_membership_response) m = thrown invalid_type
serialize_as_baseline o (kind_common k) m = serialize_as o k m
serialize_as_baseline o _ _ = undefined

unfoldable pub serialize_baseline_message : ByteOrder → Message → Outcome Message
unfolding serialize_as_baseline
serialize_baseline_message o m =
    serialize_as_baseline o (baseline_kind_of (message_header m).msg_type) m

-- The switch of recvMessage_caller_free_mem.
pub deserialize_as_baseline : ByteOrder → BaselineKind → Message → Outcome Message
deserialize_as_baseline o kind_preprepare_baseline (preprepare_baseline p) =
    done (preprepare_baseline (partial_deserialize_preprepare_baseline o p))
deserialize_as_baseline o kind_partial_commit_baseline (partial_commit_baseline p) =
    done (partial_commit_baseline (partial_deserialize_partial_commit_baseline o p))
deserialize_as_baseline o kind_full_commit_baseline (full_commit_baseline p) =
    done (full_commit_baseline (partial_deserialize_full_commit_baseline o p))
deserialize_as_baseline o (kind_common kind_general_fetch) m = thrown invalid_type
deserialize_as_baseline o (kind_common kind_connectivity_response) m = thrown invalid_type
deserialize_as_baseline o (kind_common kind_membership_response) m = thrown invalid_type
deserialize_as_baseline o (kind_common k) m = deserialize_as o k m
deserialize_as_baseline o _ _ = undefined

unfoldable pub recv_baseline_message : ByteOrder → Message → Outcome Message
unfolding deserialize_as_baseline deserialize_first
recv_baseline_message o m =
    let m' = deserialize_first o m in
    deserialize_as_baseline o (baseline_kind_of (message_header m').msg_type) m'

-- A message of the baseline's agreement in Round 3 whose fields fit their types, and whose msgType
-- is that of the struct.
abbrev pub IsAgreementMessage : Message → Type 0
IsAgreementMessage (preprepare_baseline p) =
    HeaderFits p.header
    × (p.header.msg_type ≡ 11)
    × Word16 p.sender
    × Word16 p.cycle
    × Word16 p.collector_bg_id
IsAgreementMessage (partial_commit_baseline p) =
    HeaderFits p.header × (p.header.msg_type ≡ 12) × Word16 p.sender × Word16 p.cycle
IsAgreementMessage (full_commit_baseline p) =
    HeaderFits p.header × (p.header.msg_type ≡ 13) × Word16 p.sender × Word16 p.cycle
IsAgreementMessage _ = ⊥

module _ (o : ByteOrder) where
  -- In the baseline the preprepare, partial commit and full commit of Round 3 arrive with every field
  -- as it was, if the fields fit their types and the msgType is that of the struct.
  pub recv-serialize_baseline_message :
      (m : Message)
      → IsAgreementMessage m
      → (serialize_baseline_message o m >>= recv_baseline_message o) ≡ done m
  unfolding serialize_baseline_message recv_baseline_message message_header baseline_kind_of
      serialize_preprepare_baseline partial_deserialize_preprepare_baseline
      serialize_partial_commit_baseline partial_deserialize_partial_commit_baseline
      serialize_full_commit_baseline partial_deserialize_full_commit_baseline
  recv-serialize_baseline_message (preprepare_baseline p) h = ground (
    arith,
    deserialize-serialize_header o p.header h.0,
    from_be-to_be o p.sender,
    from_be-to_be o p.cycle,
    from_be-to_be o p.collector_bg_id,
  )
  recv-serialize_baseline_message (partial_commit_baseline p) h = ground (
    arith,
    deserialize-serialize_header o p.header h.0,
    from_be-to_be o p.sender,
    from_be-to_be o p.cycle,
  )
  recv-serialize_baseline_message (full_commit_baseline p) h = ground (
    arith,
    deserialize-serialize_header o p.header h.0,
    from_be-to_be o p.sender,
    from_be-to_be o p.cycle,
  )
  recv-serialize_baseline_message _ h = absurd h
