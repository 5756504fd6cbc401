-- ===== src/Message/Round3/Relay.antt =====
-- A fetched result survives its replication in the group.
use rcanopus_membership.Prelude.{
  ℕ, ◌+◌, ◌-◌, ◌<◌, ◌≡◌, List, length, take, drop, ◌++◌, arith, take_all, take-append, drop-append,
  length-append,
}
use rcanopus_membership.Outcome.{done, ◌>>=◌}
use rcanopus_membership.Message.{MessageRound3FetchResponse}
use rcanopus_membership.Message.Image.{memcpy}
use rcanopus_membership.Message.Round3.{pack_fetch_response, unpack_fetch_response}

pub memcpy_all : (n : ℕ) (bytes : List ℕ) → length bytes ≡ n → memcpy n bytes ≡ done bytes
unfolding memcpy
memcpy_all n bytes h = ground (arith, take_all n bytes)

pub memcpy-append :
    (n : ℕ) (bytes rest : List ℕ) → length bytes ≡ n → memcpy n (bytes ++ rest) ≡ done bytes
unfolding memcpy
memcpy-append n bytes rest h =
    let cut : take n (bytes ++ rest) ≡ bytes = rw (← h) (take-append bytes rest) in
    ground (arith, cut, length-append bytes rest)

-- The response is whole: its length is the one that its header states, and its signature has 32 bytes.
abbrev pub IsWhole : MessageRound3FetchResponse → Type 0
IsWhole r =
    (length r.combined_signature ≡ 32)
    × (r.header.payload_len ≡ 38 + length r.entire_preprepare_msg)
    × (r.header.payload_len + 12 < 4294967296)

-- A whole response that the leader packs into a preprepare message for its group comes out of the
-- commit with its cycle, group, signature and message as they were, whatever view, sequence number and
-- collector the message was given on the way; the sender within the group is forgotten.
pub unpack-pack_fetch_response :
    (sl_id view seq collector : ℕ) (r : MessageRound3FetchResponse)
    → IsWhole r
    → (pack_fetch_response sl_id r >>= λ p.
        unpack_fetch_response (record p { view = view; seq = seq; collector_sl_id = collector }))
      ≡ done (record r {
        header = record { version = 1; msg_type = 7; payload_len = r.header.payload_len };
        sender_sl_id = 0xffff;
      })
unfolding pack_fetch_response unpack_fetch_response
unpack-pack_fetch_response sl_id view seq collector r (signature, payload, small) =
    let copied = memcpy_all (r.header.payload_len - 38) r.entire_preprepare_msg (omega arith) in
    let signed = memcpy-append 32 r.combined_signature r.entire_preprepare_msg signature in
    let rest : drop 32 (r.combined_signature ++ r.entire_preprepare_msg) ≡ r.entire_preprepare_msg =
      rw (← signature) (drop-append r.combined_signature r.entire_preprepare_msg) in
    ground (arith, copied, signed, rest)
