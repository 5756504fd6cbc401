-- ===== src/Message/Wire.antt =====
-- message.cpp: the conversion of messages to and from network byte order, and the two switches of
-- ConnManager.cpp that choose it by msgType (sender and recvMessage_caller_free_mem).
pub mod RoundTrip
pub mod Baseline
use rcanopus_membership.Prelude.{
  ℕ, zero, suc, ◌+◌, ◌*◌, ◌/◌, ◌%◌, ◌<◌, ◌==◌, if◌then◌else◌, ◌≡◌, List, [], ◌∷◌,
}
use rcanopus_membership.Outcome.{Outcome, done, thrown, undefined, invalid_type, ◌>>=◌}
use rcanopus_membership.Message.{
  MessageHeader, MessageHello, MessageRound2Request, MessageRound2Preprepare,
  MessageRound2PartialCommit, MessageRound2FullCommit, CompoundHash, MessageRound3FetchRequest,
  MessageRound3FetchResponse, MessageRound3GeneralFetch, MessageRound3FullMembership, Message,
  hello, request, preprepare, partial_commit, full_commit, fetch_request, fetch_response,
  general_fetch, full_membership, preprepare_baseline, partial_commit_baseline,
  full_commit_baseline, empty, message_header, MessageKind, kind_of, kind_hello, kind_request,
  kind_preprepare, kind_partial_commit, kind_full_commit, kind_fetch_request, kind_fetch_response,
  kind_general_fetch, kind_connectivity_response, kind_membership_response, kind_empty, kind_other,
}

-- arpa/inet.h, which is not part of the repository.
pub record ByteOrder : Type 0 where
  pub htons : ℕ → ℕ
  pub ntohs : ℕ → ℕ
  pub htonl : ℕ → ℕ
  pub ntohl : ℕ → ℕ
  pub htons-lt : (x : ℕ) → x < 65536 → htons x < 65536
  pub htonl-lt : (x : ℕ) → x < 4294967296 → htonl x < 4294967296
  pub ntohs-htons : (x : ℕ) → x < 65536 → ntohs (htons x) ≡ x
  pub ntohl-htonl : (x : ℕ) → x < 4294967296 → ntohl (htonl x) ≡ x

-- The conversions of a field, by the bytes of its type.
abbrev pub Convert : Type 0
Convert = ℕ → ℕ → ℕ

-- toBE and fromBE.
unfoldable pub to_be : ByteOrder → Convert
to_be o size x = if size == 2 then o.htons x else if size == 4 then o.htonl x else x

unfoldable pub from_be : ByteOrder → Convert
from_be o size x = if size == 2 then o.ntohs x else if size == 4 then o.ntohl x else x

pub serialize_header : ByteOrder → MessageHeader → MessageHeader
serialize_header o p = record p {
  version = to_be o 2 p.version;
  msg_type = to_be o 2 p.msg_type;
  payload_len = to_be o 4 p.payload_len;
}

unfoldable pub deserialize_header : ByteOrder → MessageHeader → MessageHeader
deserialize_header o p = record p {
  version = from_be o 2 p.version;
  msg_type = from_be o 2 p.msg_type;
  payload_len = from_be o 4 p.payload_len;
}

pub serialize_hello : ByteOrder → MessageHello → MessageHello
serialize_hello o p = record p {
  header = serialize_header o p.header;
  bg_id = to_be o 2 p.bg_id;
  sl_id = to_be o 2 p.sl_id;
}

-- The source calls toBE here too.
pub partial_deserialize_hello : ByteOrder → MessageHello → MessageHello
partial_deserialize_hello o p = record p { bg_id = to_be o 2 p.bg_id; sl_id = to_be o 2 p.sl_id }

pub serialize_request : ByteOrder → MessageRound2Request → MessageRound2Request
serialize_request o p = record p {
  header = serialize_header o p.header;
  sender = to_be o 2 p.sender;
}

pub partial_deserialize_request : ByteOrder → MessageRound2Request → MessageRound2Request
partial_deserialize_request o p = record p { sender = from_be o 2 p.sender }

pub serialize_partial_commit : ByteOrder → MessageRound2PartialCommit → MessageRound2PartialCommit
serialize_partial_commit o p = record p {
  header = serialize_header o p.header;
  sender = to_be o 2 p.sender;
  view = to_be o 2 p.view;
  seq = to_be o 2 p.seq;
}

pub partial_deserialize_partial_commit :
    ByteOrder → MessageRound2PartialCommit → MessageRound2PartialCommit
partial_deserialize_partial_commit o p = record p {
  sender = from_be o 2 p.sender;
  view = from_be o 2 p.view;
  seq = from_be o 2 p.seq;
}

pub serialize_full_commit : ByteOrder → MessageRound2FullCommit → MessageRound2FullCommit
serialize_full_commit o p = record p {
  header = serialize_header o p.header;
  sender = to_be o 2 p.sender;
  view = to_be o 2 p.view;
  seq = to_be o 2 p.seq;
}

pub partial_deserialize_full_commit : ByteOrder → MessageRound2FullCommit → MessageRound2FullCommit
partial_deserialize_full_commit o p = record p {
  sender = from_be o 2 p.sender;
  view = from_be o 2 p.view;
  seq = from_be o 2 p.seq;
}

pub serialize_fetch_response : ByteOrder → MessageRound3FetchResponse → MessageRound3FetchResponse
serialize_fetch_response o p = record p {
  header = serialize_header o p.header;
  sender_bg_id = to_be o 2 p.sender_bg_id;
  sender_sl_id = to_be o 2 p.sender_sl_id;
  cycle = to_be o 2 p.cycle;
}

pub partial_deserialize_fetch_response :
    ByteOrder → MessageRound3FetchResponse → MessageRound3FetchResponse
partial_deserialize_fetch_response o p = record p {
  sender_bg_id = from_be o 2 p.sender_bg_id;
  sender_sl_id = from_be o 2 p.sender_sl_id;
  cycle = from_be o 2 p.cycle;
}

pub serialize_general_fetch : ByteOrder → MessageRound3GeneralFetch → MessageRound3GeneralFetch
serialize_general_fetch o p = record p {
  header = serialize_header o p.header;
  sender_bg_id = to_be o 2 p.sender_bg_id;
  sender_sl_id = to_be o 2 p.sender_sl_id;
  cycle = to_be o 2 p.cycle;
  msg_type_demanded = to_be o 2 p.msg_type_demanded;
}

pub partial_deserialize_general_fetch :
    ByteOrder → MessageRound3GeneralFetch → MessageRound3GeneralFetch
partial_deserialize_general_fetch o p = record p {
  sender_bg_id = from_be o 2 p.sender_bg_id;
  sender_sl_id = from_be o 2 p.sender_sl_id;
  cycle = from_be o 2 p.cycle;
  msg_type_demanded = from_be o 2 p.msg_type_demanded;
}

pub serialize_full_membership :
    ByteOrder → MessageRound3FullMembership → MessageRound3FullMembership
serialize_full_membership o p = record p {
  header = serialize_header o p.header;
  sender_bg_id = to_be o 2 p.sender_bg_id;
  sender_sl_id = to_be o 2 p.sender_sl_id;
  cycle = to_be o 2 p.cycle;
  total_bg_num = to_be o 2 p.total_bg_num;
}

pub partial_deserialize_full_membership :
    ByteOrder → MessageRound3FullMembership → MessageRound3FullMembership
partial_deserialize_full_membership o p = record p {
  sender_bg_id = from_be o 2 p.sender_bg_id;
  sender_sl_id = from_be o 2 p.sender_sl_id;
  cycle = from_be o 2 p.cycle;
  total_bg_num = from_be o 2 p.total_bg_num;
}

pub serialize_fetch_request : ByteOrder → MessageRound3FetchRequest → MessageRound3FetchRequest
serialize_fetch_request o p = record p {
  header = serialize_header o p.header;
  sender_bg_id = to_be o 2 p.sender_bg_id;
  sender_sl_id = to_be o 2 p.sender_sl_id;
  cycle = to_be o 2 p.cycle;
  hash = record p.hash {
    bg_id = to_be o 2 p.hash.bg_id;
    cycle = to_be o 2 p.hash.cycle;
    lastcycle = to_be o 2 p.hash.lastcycle;
  };
}

pub partial_deserialize_fetch_request :
    ByteOrder → MessageRound3FetchRequest → MessageRound3FetchRequest
partial_deserialize_fetch_request o p = record p {
  sender_bg_id = from_be o 2 p.sender_bg_id;
  sender_sl_id = from_be o 2 p.sender_sl_id;
  cycle = from_be o 2 p.cycle;
  hash = record p.hash {
    bg_id = from_be o 2 p.hash.bg_id;
    cycle = from_be o 2 p.hash.cycle;
    lastcycle = from_be o 2 p.hash.lastcycle;
  };
}

-- The loop over the first n uint16_t of a buffer, which lie in memory with the low byte first.
pub convert_fields : (ℕ → ℕ) → ℕ → List ℕ → Outcome (List ℕ)
convert_fields f zero bytes = done bytes
convert_fields f (suc n) (lo ∷ hi ∷ bytes) =
    let rest = convert_fields f n bytes in
    let v = f (lo + 256 * hi) in rest >>= λ tail. done (v % 256 ∷ v / 256 ∷ tail)
convert_fields f (suc n) _ = undefined

-- The participants are converted before their number is.
pub serialize_preprepare : ByteOrder → MessageRound2Preprepare → Outcome MessageRound2Preprepare
serialize_preprepare o p = do
  fields ← convert_fields (to_be o 2) p.num_of_round3_participants p.participants_and_content
  done (record p {
    header = serialize_header o p.header;
    sender = to_be o 2 p.sender;
    view = to_be o 2 p.view;
    seq = to_be o 2 p.seq;
    bg_id = to_be o 2 p.bg_id;
    request_type = to_be o 2 p.request_type;
    cycle = to_be o 2 p.cycle;
    lastcycle = to_be o 2 p.lastcycle;
    collector_sl_id = to_be o 2 p.collector_sl_id;
    participants_and_content = fields;
    num_of_round3_participants = to_be o 2 p.num_of_round3_participants;
  })

pub partial_deserialize_preprepare :
    ByteOrder → MessageRound2Preprepare → Outcome MessageRound2Preprepare
partial_deserialize_preprepare o p = do
  let num = from_be o 2 p.num_of_round3_participants
  fields ← convert_fields (from_be o 2) num p.participants_and_content
  done (record p {
    sender = from_be o 2 p.sender;
    view = from_be o 2 p.view;
    seq = from_be o 2 p.seq;
    bg_id = from_be o 2 p.bg_id;
    request_type = from_be o 2 p.request_type;
    cycle = from_be o 2 p.cycle;
    lastcycle = from_be o 2 p.lastcycle;
    collector_sl_id = from_be o 2 p.collector_sl_id;
    num_of_round3_participants = num;
    participants_and_content = fields;
  })

-- The switch of sender: the cast must fit the buffer.
pub serialize_as : ByteOrder → MessageKind → Message → Outcome Message
serialize_as o kind_hello (hello p) = done (hello (serialize_hello o p))
serialize_as o kind_request (request p) = done (request (serialize_request o p))
serialize_as o kind_preprepare (preprepare p) = do q ← serialize_preprepare o p; done (preprepare q)
serialize_as o kind_partial_commit (partial_commit p) =
    done (partial_commit (serialize_partial_commit o p))
serialize_as o kind_full_commit (full_commit p) = done (full_commit (serialize_full_commit o p))
serialize_as o kind_fetch_request (fetch_request p) =
    done (fetch_request (serialize_fetch_request o p))
serialize_as o kind_fetch_response (fetch_response p) =
    done (fetch_response (serialize_fetch_response o p))
serialize_as o kind_general_fetch (general_fetch p) =
    done (general_fetch (serialize_general_fetch o p))
serialize_as o kind_connectivity_response (fetch_response p) =
    done (fetch_response (serialize_fetch_response o p))
serialize_as o kind_membership_response (full_membership p) =
    done (full_membership (serialize_full_membership o p))
serialize_as o kind_empty _ = thrown invalid_type
serialize_as o kind_other _ = thrown invalid_type
serialize_as o _ _ = undefined

unfoldable pub serialize_message : ByteOrder → Message → Outcome Message
unfolding serialize_as
serialize_message o m = serialize_as o (kind_of (message_header m).msg_type) m

-- deserialize on the first bytes of a buffer.
pub deserialize_first : ByteOrder → Message → Message
deserialize_first o (hello p) = hello (record p { header = deserialize_header o p.header })
deserialize_first o (request p) = request (record p { header = deserialize_header o p.header })
deserialize_first o (preprepare p) =
    preprepare (record p { header = deserialize_header o p.header })
deserialize_first o (partial_commit p) =
    partial_commit (record p { header = deserialize_header o p.header })
deserialize_first o (full_commit p) =
    full_commit (record p { header = deserialize_header o p.header })
deserialize_first o (fetch_request p) =
    fetch_request (record p { header = deserialize_header o p.header })
deserialize_first o (fetch_response p) =
    fetch_response (record p { header = deserialize_header o p.header })
deserialize_first o (general_fetch p) =
    general_fetch (record p { header = deserialize_header o p.header })
deserialize_first o (full_membership p) =
    full_membership (record p { header = deserialize_header o p.header })
deserialize_first o (preprepare_baseline p) =
    preprepare_baseline (record p { header = deserialize_header o p.header })
deserialize_first o (partial_commit_baseline p) =
    partial_commit_baseline (record p { header = deserialize_header o p.header })
deserialize_first o (full_commit_baseline p) =
    full_commit_baseline (record p { header = deserialize_header o p.header })
deserialize_first o (empty h) = empty (deserialize_header o h)

-- The switch of recvMessage_caller_free_mem.
pub deserialize_as : ByteOrder → MessageKind → Message → Outcome Message
deserialize_as o kind_hello (hello p) = done (hello (partial_deserialize_hello o p))
deserialize_as o kind_request (request p) = done (request (partial_deserialize_request o p))
deserialize_as o kind_preprepare (preprepare p) = do
  q ← partial_deserialize_preprepare o p
  done (preprepare q)
deserialize_as o kind_partial_commit (partial_commit p) =
    done (partial_commit (partial_deserialize_partial_commit o p))
deserialize_as o kind_full_commit (full_commit p) =
    done (full_commit (partial_deserialize_full_commit o p))
deserialize_as o kind_fetch_request (fetch_request p) =
    done (fetch_request (partial_deserialize_fetch_request o p))
deserialize_as o kind_fetch_response (fetch_response p) =
    done (fetch_response (partial_deserialize_fetch_response o p))
deserialize_as o kind_general_fetch (general_fetch p) =
    done (general_fetch (partial_deserialize_general_fetch o p))
deserialize_as o kind_connectivity_response (fetch_response p) =
    done (fetch_response (partial_deserialize_fetch_response o p))
deserialize_as o kind_membership_response (full_membership p) =
    done (full_membership (partial_deserialize_full_membership o p))
deserialize_as o kind_empty _ = thrown invalid_type
deserialize_as o kind_other _ = thrown invalid_type
deserialize_as o _ _ = undefined

-- recvMessage_caller_free_mem, once the buffer has been read from the socket.
unfoldable pub recv_message : ByteOrder → Message → Outcome Message
unfolding deserialize_as deserialize_first
recv_message o m =
    let m' = deserialize_first o m in deserialize_as o (kind_of (message_header m').msg_type) m'
