-- ===== src/Message.antt =====
-- message.h: the messages as packed structs. A field of 16 or 32 bits is a number, a char array is a
-- list of bytes; a struct and its _BE twin have one layout, and so one record.
pub mod Wire
pub mod Image
pub mod Round3
pub mod Sent
use rcanopus_membership.Prelude.{ℕ, ◌+◌, ◌*◌, ◌==◌, if◌then◌else◌, List}

-- The values of msgType.
abbrev pub message_invalid : ℕ
message_invalid = 0

abbrev pub message_hello : ℕ
message_hello = 1

abbrev pub message_round2_request : ℕ
message_round2_request = 2

abbrev pub message_round2_preprepare : ℕ
message_round2_preprepare = 3

abbrev pub message_round2_partial_commit : ℕ
message_round2_partial_commit = 4

abbrev pub message_round2_full_commit : ℕ
message_round2_full_commit = 5

abbrev pub message_round3_fetch_request : ℕ
message_round3_fetch_request = 6

abbrev pub message_round3_fetch_response : ℕ
message_round3_fetch_response = 7

abbrev pub message_round3_general_fetch : ℕ
message_round3_general_fetch = 8

abbrev pub message_round3_connectivity_response : ℕ
message_round3_connectivity_response = 9

abbrev pub message_round3_membership_response : ℕ
message_round3_membership_response = 10

abbrev pub message_round3_preprepare_baseline : ℕ
message_round3_preprepare_baseline = 11

abbrev pub message_round3_partial_commit_baseline : ℕ
message_round3_partial_commit_baseline = 12

abbrev pub message_round3_full_commit_baseline : ℕ
message_round3_full_commit_baseline = 13

abbrev pub message_empty : ℕ
message_empty = 14

pub record MessageHeader : Type 0 where
  pub version : ℕ
  pub msg_type : ℕ
  pub payload_len : ℕ

pub record MessageHello : Type 0 where
  pub header : MessageHeader
  pub bg_id : ℕ
  pub sl_id : ℕ

pub record MessageRound2Request : Type 0 where
  pub header : MessageHeader
  pub sender : ℕ
  pub content : List ℕ

pub record MessageRound2Preprepare : Type 0 where
  pub header : MessageHeader
  pub sender : ℕ
  pub view : ℕ
  pub seq : ℕ
  pub bg_id : ℕ
  pub request_type : ℕ
  pub cycle : ℕ
  pub lastcycle : ℕ
  pub collector_sl_id : ℕ
  pub num_of_round3_participants : ℕ
  pub participants_and_content : List ℕ

pub record MessageRound2PartialCommit : Type 0 where
  pub header : MessageHeader
  pub sender : ℕ
  pub view : ℕ
  pub seq : ℕ
  pub signature : List ℕ

pub record MessageRound2FullCommit : Type 0 where
  pub header : MessageHeader
  pub sender : ℕ
  pub view : ℕ
  pub seq : ℕ
  pub combined_signature : List ℕ

pub record CompoundHash : Type 0 where
  pub bg_id : ℕ
  pub cycle : ℕ
  pub lastcycle : ℕ
  pub hash : List ℕ

pub record MessageRound3FetchRequest : Type 0 where
  pub header : MessageHeader
  pub sender_bg_id : ℕ
  pub sender_sl_id : ℕ
  pub cycle : ℕ
  pub hash : CompoundHash
  pub combined_signature : List ℕ

-- Also MessageRound3Connectivity, which is a typedef of it.
pub record MessageRound3FetchResponse : Type 0 where
  pub header : MessageHeader
  pub sender_bg_id : ℕ
  pub sender_sl_id : ℕ
  pub cycle : ℕ
  pub combined_signature : List ℕ
  pub entire_preprepare_msg : List ℕ

pub record MessageRound3GeneralFetch : Type 0 where
  pub header : MessageHeader
  pub sender_bg_id : ℕ
  pub sender_sl_id : ℕ
  pub cycle : ℕ
  pub msg_type_demanded : ℕ

pub record MessageRound3FullMembership : Type 0 where
  pub header : MessageHeader
  pub sender_bg_id : ℕ
  pub sender_sl_id : ℕ
  pub combined_signature : List ℕ
  pub cycle : ℕ
  pub total_bg_num : ℕ
  pub connectivity : List ℕ

pub record MessageRound3PreprepareBaseline : Type 0 where
  pub header : MessageHeader
  pub sender : ℕ
  pub cycle : ℕ
  pub collector_bg_id : ℕ
  pub content : List ℕ

pub record MessageRound3PartialCommitBaseline : Type 0 where
  pub header : MessageHeader
  pub sender : ℕ
  pub cycle : ℕ
  pub signature : List ℕ

pub record MessageRound3FullCommitBaseline : Type 0 where
  pub header : MessageHeader
  pub sender : ℕ
  pub cycle : ℕ
  pub combined_signature : List ℕ

-- sizeof of the packed structs, without their flexible array members.
abbrev pub sizeof_header : ℕ
sizeof_header = 8

abbrev pub sizeof_request : ℕ
sizeof_request = sizeof_header + 2

abbrev pub sizeof_preprepare : ℕ
sizeof_preprepare = sizeof_header + 9 * 2

abbrev pub sizeof_partial_commit : ℕ
sizeof_partial_commit = sizeof_header + 3 * 2 + 32

abbrev pub sizeof_full_commit : ℕ
sizeof_full_commit = sizeof_header + 3 * 2 + 32

abbrev pub sizeof_fetch_request : ℕ
sizeof_fetch_request = sizeof_header + 3 * 2 + (3 * 2 + 32) + 32

abbrev pub sizeof_fetch_response : ℕ
sizeof_fetch_response = sizeof_header + 3 * 2 + 32

abbrev pub sizeof_general_fetch : ℕ
sizeof_general_fetch = sizeof_header + 4 * 2

abbrev pub sizeof_full_membership : ℕ
sizeof_full_membership = sizeof_header + 2 * 2 + 32 + 2 * 2

abbrev pub sizeof_preprepare_baseline : ℕ
sizeof_preprepare_baseline = sizeof_header + 3 * 2

abbrev pub sizeof_partial_commit_baseline : ℕ
sizeof_partial_commit_baseline = sizeof_header + 2 * 2 + 32

abbrev pub sizeof_full_commit_baseline : ℕ
sizeof_full_commit_baseline = sizeof_header + 2 * 2 + 32

-- A message behind a MessageHeader pointer: the layout of its buffer. Its msgType is the header's.
pub data Message : Type 0 where
  hello : MessageHello → Message
  request : MessageRound2Request → Message
  preprepare : MessageRound2Preprepare → Message
  partial_commit : MessageRound2PartialCommit → Message
  full_commit : MessageRound2FullCommit → Message
  fetch_request : MessageRound3FetchRequest → Message
  fetch_response : MessageRound3FetchResponse → Message
  general_fetch : MessageRound3GeneralFetch → Message
  full_membership : MessageRound3FullMembership → Message
  preprepare_baseline : MessageRound3PreprepareBaseline → Message
  partial_commit_baseline : MessageRound3PartialCommitBaseline → Message
  full_commit_baseline : MessageRound3FullCommitBaseline → Message
  empty : MessageHeader → Message

unfoldable pub message_header : Message → MessageHeader
message_header (hello p) = p.header
message_header (request p) = p.header
message_header (preprepare p) = p.header
message_header (partial_commit p) = p.header
message_header (full_commit p) = p.header
message_header (fetch_request p) = p.header
message_header (fetch_response p) = p.header
message_header (general_fetch p) = p.header
message_header (full_membership p) = p.header
message_header (preprepare_baseline p) = p.header
message_header (partial_commit_baseline p) = p.header
message_header (full_commit_baseline p) = p.header
message_header (empty h) = h

-- getMessageSize.
unfoldable pub get_message_size : MessageHeader → ℕ
get_message_size h = sizeof_header + h.payload_len

-- The cases of the switches on msgType. `other` is the default.
pub data MessageKind : Type 0 where
  kind_hello kind_request kind_preprepare kind_partial_commit kind_full_commit : MessageKind
  kind_fetch_request kind_fetch_response kind_general_fetch : MessageKind
  kind_connectivity_response kind_membership_response kind_empty kind_other : MessageKind

unfoldable pub kind_of : ℕ → MessageKind
kind_of t =
    if t == message_hello
    then kind_hello
    else if t == message_round2_request
    then kind_request
    else if t == message_round2_preprepare
    then kind_preprepare
    else if t == message_round2_partial_commit
    then kind_partial_commit
    else if t == message_round2_full_commit
    then kind_full_commit
    else if t == message_round3_fetch_request
    then kind_fetch_request
    else if t == message_round3_fetch_response
    then kind_fetch_response
    else if t == message_round3_general_fetch
    then kind_general_fetch
    else if t == message_round3_connectivity_response
    then kind_connectivity_response
    else if t == message_round3_membership_response
    then kind_membership_response
    else if t == message_empty
    then kind_empty
    else kind_other
