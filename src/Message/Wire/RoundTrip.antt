-- ===== src/Message/Wire/RoundTrip.antt =====
-- A message that is sent arrives as it was.
use rcanopus_membership.Prelude.{
  ℕ, zero, suc, ◌+◌, ◌*◌, ◌/◌, ◌%◌, ◌≤◌, ◌<◌, ◌≡◌, refl, ◌≢◌, ◌⊎◌, List, [], ◌∷◌, length, arith,
}
use rcanopus_membership.Outcome.{done, ◌>>=◌}
use rcanopus_membership.Message.{
  MessageHeader, MessageHello, MessageRound2Request, MessageRound2Preprepare,
  MessageRound2PartialCommit, MessageRound2FullCommit, MessageRound3FetchRequest,
  MessageRound3FetchResponse, MessageRound3GeneralFetch, MessageRound3FullMembership, Message,
  hello, request, preprepare, partial_commit, full_commit, fetch_request, fetch_response,
  general_fetch, full_membership, preprepare_baseline, partial_commit_baseline,
  full_commit_baseline, empty, message_header, kind_of,
}
use rcanopus_membership.Message.Wire.{
  ByteOrder, to_be, from_be, serialize_header, deserialize_header, serialize_hello,
  partial_deserialize_hello, serialize_request, partial_deserialize_request,
  serialize_partial_commit, partial_deserialize_partial_commit, serialize_full_commit,
  partial_deserialize_full_commit, serialize_fetch_request, partial_deserialize_fetch_request,
  serialize_fetch_response, partial_deserialize_fetch_response, serialize_general_fetch,
  partial_deserialize_general_fetch, serialize_full_membership, partial_deserialize_full_membership,
  convert_fields, serialize_preprepare, partial_deserialize_preprepare, serialize_message,
  recv_message,
}

-- A uint16_t.
abbrev pub Word16 : ℕ → Type 0
Word16 x = x < 65536

abbrev pub Bytes : List ℕ → Type 0
Bytes [] = Unit
Bytes (x ∷ xs) = (x < 256) × Bytes xs

abbrev pub HeaderFits : MessageHeader → Type 0
HeaderFits h = Word16 h.version × Word16 h.msg_type × (h.payload_len < 4294967296)

-- Every field fits its type, the msgType is that of the buffer, and the participants are there.
abbrev pub IsSendable : Message → Type 0
IsSendable (hello p) =
    HeaderFits p.header × (p.header.msg_type ≡ 1) × Word16 p.bg_id × Word16 p.sl_id
IsSendable (request p) = HeaderFits p.header × (p.header.msg_type ≡ 2) × Word16 p.sender
IsSendable (preprepare p) =
    HeaderFits p.header
    × (p.header.msg_type ≡ 3)
    × Word16 p.sender
    × Word16 p.view
    × Word16 p.seq
    × Word16 p.bg_id
    × Word16 p.request_type
    × Word16 p.cycle
    × Word16 p.lastcycle
    × Word16 p.collector_sl_id
    × Word16 p.num_of_round3_participants
    × (2 * p.num_of_round3_participants ≤ length p.participants_and_content)
    × Bytes p.participants_and_content
IsSendable (partial_commit p) =
    HeaderFits p.header × (p.header.msg_type ≡ 4) × Word16 p.sender × Word16 p.view × Word16 p.seq
IsSendable (full_commit p) =
    HeaderFits p.header × (p.header.msg_type ≡ 5) × Word16 p.sender × Word16 p.view × Word16 p.seq
IsSendable (fetch_request p) =
    HeaderFits p.header
    × (p.header.msg_type ≡ 6)
    × Word16 p.sender_bg_id
    × Word16 p.sender_sl_id
    × Word16 p.cycle
    × Word16 p.hash.bg_id
    × Word16 p.hash.cycle
    × Word16 p.hash.lastcycle
IsSendable (fetch_response p) =
    HeaderFits p.header
    × ((p.header.msg_type ≡ 7) ⊎ (p.header.msg_type ≡ 9))
    × Word16 p.sender_bg_id
    × Word16 p.sender_sl_id
    × Word16 p.cycle
IsSendable (general_fetch p) =
    HeaderFits p.header
    × (p.header.msg_type ≡ 8)
    × Word16 p.sender_bg_id
    × Word16 p.sender_sl_id
    × Word16 p.cycle
    × Word16 p.msg_type_demanded
IsSendable (full_membership p) =
    HeaderFits p.header
    × (p.header.msg_type ≡ 10)
    × Word16 p.sender_bg_id
    × Word16 p.sender_sl_id
    × Word16 p.cycle
    × Word16 p.total_bg_num
IsSendable (preprepare_baseline p) = ⊥
IsSendable (partial_commit_baseline p) = ⊥
IsSendable (full_commit_baseline p) = ⊥
IsSendable (empty h) = ⊥

module _ (o : ByteOrder) where
  pub from_be-to_be : (x : ℕ) → x < 65536 → from_be o 2 (to_be o 2 x) ≡ x
  unfolding from_be to_be
  from_be-to_be x h = o.ntohs-htons x h

  from_be-to_be_long : (x : ℕ) → x < 4294967296 → from_be o 4 (to_be o 4 x) ≡ x
  unfolding from_be to_be
  from_be-to_be_long x h = o.ntohl-htonl x h

  to_be-lt : (x : ℕ) → x < 65536 → to_be o 2 x < 65536
  unfolding to_be
  to_be-lt x h = o.htons-lt x h

  pub deserialize-serialize_header :
      (p : MessageHeader) → HeaderFits p → deserialize_header o (serialize_header o p) ≡ p
  unfolding deserialize_header serialize_header
  deserialize-serialize_header p h = λ i. record {
    version = from_be-to_be p.version h.0 i;
    msg_type = from_be-to_be p.msg_type h.1 i;
    payload_len = from_be-to_be_long p.payload_len h.2 i;
  }

  convert_fields_back :
      (n : ℕ) (bytes : List ℕ)
      → 2 * n ≤ length bytes
      → Bytes bytes
      → (wire : List ℕ) × (convert_fields (to_be o 2) n bytes ≡ done wire)
        × (convert_fields (from_be o 2) n wire ≡ done bytes)
  unfolding convert_fields
  convert_fields_back zero bytes h b = (bytes, refl, refl)
  convert_fields_back (suc n) [] h b = absurd (omega arith)
  convert_fields_back (suc n) (lo ∷ []) h b = absurd (omega arith)
  convert_fields_back (suc n) (lo ∷ hi ∷ bytes) h b =
      let (wire, to, back) = convert_fields_back n bytes (omega arith) b.1.1 in
      let v : ℕ = to_be o 2 (lo + 256 * hi) in
      let whole : v % 256 + 256 * (v / 256) ≡ v = omega arith in
      let pair : lo + 256 * hi < 65536 = omega (arith, b.0, b.1.0) in
      (
        v % 256 ∷ v / 256 ∷ wire,
        rw to,
        rw (whole, from_be-to_be (lo + 256 * hi) pair, back) (ground (arith, b.0, b.1.0)),
      )

  -- What the receiver makes of each struct that was serialized.
  request_back :
      (p : MessageRound2Request)
      → IsSendable (request p)
      → (serialize_message o (request p) >>= recv_message o) ≡ done (request p)
  unfolding serialize_message recv_message message_header kind_of serialize_request
      partial_deserialize_request
  request_back p h =
      ground (arith, deserialize-serialize_header p.header h.0, from_be-to_be p.sender)

  hello_back :
      ((x : ℕ) → x < 65536 → o.htons (o.htons x) ≡ x)
      → (p : MessageHello) → IsSendable (hello p)
      → (serialize_message o (hello p) >>= recv_message o) ≡ done (hello p)
  unfolding serialize_message recv_message message_header kind_of serialize_hello
      partial_deserialize_hello to_be
  hello_back twice p h =
      ground (arith, deserialize-serialize_header p.header h.0, twice p.bg_id, twice p.sl_id)

  partial_commit_back :
      (p : MessageRound2PartialCommit)
      → IsSendable (partial_commit p)
      → (serialize_message o (partial_commit p) >>= recv_message o) ≡ done (partial_commit p)
  unfolding serialize_message recv_message message_header kind_of serialize_partial_commit
      partial_deserialize_partial_commit
  partial_commit_back p h = ground (
    arith,
    deserialize-serialize_header p.header h.0,
    from_be-to_be p.sender,
    from_be-to_be p.view,
    from_be-to_be p.seq,
  )

  full_commit_back :
      (p : MessageRound2FullCommit)
      → IsSendable (full_commit p)
      → (serialize_message o (full_commit p) >>= recv_message o) ≡ done (full_commit p)
  unfolding serialize_message recv_message message_header kind_of serialize_full_commit
      partial_deserialize_full_commit
  full_commit_back p h = ground (
    arith,
    deserialize-serialize_header p.header h.0,
    from_be-to_be p.sender,
    from_be-to_be p.view,
    from_be-to_be p.seq,
  )

  fetch_response_back :
      (p : MessageRound3FetchResponse)
      → IsSendable (fetch_response p)
      → (serialize_message o (fetch_response p) >>= recv_message o) ≡ done (fetch_response p)
  unfolding serialize_message recv_message message_header kind_of serialize_fetch_response
      partial_deserialize_fetch_response
  fetch_response_back p h = ground (
    arith,
    deserialize-serialize_header p.header h.0,
    from_be-to_be p.sender_bg_id,
    from_be-to_be p.sender_sl_id,
    from_be-to_be p.cycle,
  )

  general_fetch_back :
      (p : MessageRound3GeneralFetch)
      → IsSendable (general_fetch p)
      → (serialize_message o (general_fetch p) >>= recv_message o) ≡ done (general_fetch p)
  unfolding serialize_message recv_message message_header kind_of serialize_general_fetch
      partial_deserialize_general_fetch
  general_fetch_back p h = ground (
    arith,
    deserialize-serialize_header p.header h.0,
    from_be-to_be p.sender_bg_id,
    from_be-to_be p.sender_sl_id,
    from_be-to_be p.cycle,
    from_be-to_be p.msg_type_demanded,
  )

  full_membership_back :
      (p : MessageRound3FullMembership)
      → IsSendable (full_membership p)
      → (serialize_message o (full_membership p) >>= recv_message o) ≡ done (full_membership p)
  unfolding serialize_message recv_message message_header kind_of serialize_full_membership
      partial_deserialize_full_membership
  full_membership_back p h = ground (
    arith,
    deserialize-serialize_header p.header h.0,
    from_be-to_be p.sender_bg_id,
    from_be-to_be p.sender_sl_id,
    from_be-to_be p.cycle,
    from_be-to_be p.total_bg_num,
  )

  fetch_request_back :
      (p : MessageRound3FetchRequest)
      → IsSendable (fetch_request p)
      → (serialize_message o (fetch_request p) >>= recv_message o) ≡ done (fetch_request p)
  unfolding serialize_message recv_message message_header kind_of serialize_fetch_request
      partial_deserialize_fetch_request
  fetch_request_back p h = ground (
    arith,
    deserialize-serialize_header p.header h.0,
    from_be-to_be p.sender_bg_id,
    from_be-to_be p.sender_sl_id,
    from_be-to_be p.cycle,
    from_be-to_be p.hash.bg_id,
    from_be-to_be p.hash.cycle,
    from_be-to_be p.hash.lastcycle,
  )

  preprepare_back :
      (p : MessageRound2Preprepare)
      → IsSendable (preprepare p)
      → (serialize_message o (preprepare p) >>= recv_message o) ≡ done (preprepare p)
  unfolding serialize_message recv_message message_header kind_of serialize_preprepare
      partial_deserialize_preprepare
  preprepare_back p h =
      let (wire, to, back) =
        convert_fields_back p.num_of_round3_participants p.participants_and_content h.11 h.12 in
      ground (
        arith,
        to,
        back,
        deserialize-serialize_header p.header h.0,
        from_be-to_be p.sender,
        from_be-to_be p.view,
        from_be-to_be p.seq,
        from_be-to_be p.bg_id,
        from_be-to_be p.request_type,
        from_be-to_be p.cycle,
        from_be-to_be p.lastcycle,
        from_be-to_be p.collector_sl_id,
        from_be-to_be p.num_of_round3_participants,
      )

  -- Whatever message one node sends to another, but a hello, arrives with every field as it was: the
  -- receiver's conversions undo the sender's, for every type of message that sender and
  -- recvMessage_caller_free_mem handle, if the fields fit their types, the buffer holds the
  -- participants, and the msgType is that of the struct.
  pub recv_message-serialize_message :
      (m : Message)
      → IsSendable m
      → ((p : MessageHello) → m ≢ hello p)
      → (serialize_message o m >>= recv_message o) ≡ done m
  recv_message-serialize_message (hello p) h other = absurd (other p refl)
  recv_message-serialize_message (request p) h other = request_back p h
  recv_message-serialize_message (preprepare p) h other = preprepare_back p h
  recv_message-serialize_message (partial_commit p) h other = partial_commit_back p h
  recv_message-serialize_message (full_commit p) h other = full_commit_back p h
  recv_message-serialize_message (fetch_request p) h other = fetch_request_back p h
  recv_message-serialize_message (fetch_response p) h other = fetch_response_back p h
  recv_message-serialize_message (general_fetch p) h other = general_fetch_back p h
  recv_message-serialize_message (full_membership p) h other = full_membership_back p h
  recv_message-serialize_message (preprepare_baseline p) h other = absurd h
  recv_message-serialize_message (partial_commit_baseline p) h other = absurd h
  recv_message-serialize_message (full_commit_baseline p) h other = absurd h
  recv_message-serialize_message (empty p) h other = absurd h

  -- A hello that one node sends to another arrives with every field as it was, if its fields fit
  -- their types, on a host where htons is its own inverse, which the receiver's toBE needs.
  pub recv_message-serialize_message_hello :
      ((x : ℕ) → x < 65536 → o.htons (o.htons x) ≡ x)
      → (p : MessageHello) → IsSendable (hello p)
      → (serialize_message o (hello p) >>= recv_message o) ≡ done (hello p)
  recv_message-serialize_message_hello = hello_back
