-- ===== src/Message/Round3.antt =====
-- message.cpp and ConnManager.cpp: the Round 3 messages that are made out of Round 2 ones, and the
-- preprepare messages that carry a fetched result.
pub mod Relay
pub mod Query
use rcanopus_membership.Prelude.{
  ℕ, ◌+◌, ◌-◌, ◌≡◌, Bool, ◌&&◌, ltb, leb, if◌then◌else◌, List, [], ◌∷◌, ◌++◌, Option, none, some,
  u16, u32, take, drop, length, replicate,
}
use rcanopus_membership.Const.{
  version_latest, sbft_hash_size, sbft_combined_signature_size, request_type_fetched_result,
  invalid_sender_id,
}
use rcanopus_membership.Outcome.{Outcome, done, undefined, ◌>>=◌, ◌>>◌, debug_throw}
use rcanopus_membership.Message.{
  MessageRound2Preprepare, MessageRound2FullCommit, MessageRound3FetchRequest,
  MessageRound3FetchResponse, get_message_size, sizeof_header, sizeof_preprepare,
  sizeof_fetch_response, sizeof_fetch_request, message_round2_preprepare,
  message_round3_fetch_request, message_round3_fetch_response,
}
use rcanopus_membership.Message.Image.{preprepare_bytes, as_preprepare, memcpy}

-- getRound3Response_caller_free_mem.
pub get_round3_response :
    MessageRound2Preprepare → MessageRound2FullCommit → ℕ → ℕ → Outcome MessageRound3FetchResponse
get_round3_response p full_c sl_id cycle = do
  let total_size = sizeof_fetch_response + get_message_size p.header
  copy ← memcpy (get_message_size p.header) (preprepare_bytes p)
  done (record {
    header = record {
      version = p.header.version;
      msg_type = message_round3_fetch_response;
      payload_len = u32 (total_size - sizeof_header);
    };
    sender_bg_id = p.bg_id;
    sender_sl_id = sl_id;
    cycle = cycle;
    combined_signature = full_c.combined_signature;
    entire_preprepare_msg = copy;
  })

-- A read through (MessageRound2Preprepare *) of a buffer that must hold the struct.
abbrev pub cast_preprepare : List ℕ → Outcome MessageRound2Preprepare
cast_preprepare bytes = elim (as_preprepare bytes) [ none ↦ undefined | some p ↦ done p ]

-- getRound3Request_caller_free_mem.
pub get_round3_request : Bool → MessageRound3FetchResponse → Outcome MessageRound3FetchRequest
get_round3_request failfast response = do
  p ← cast_preprepare response.entire_preprepare_msg
  debug_throw failfast (ltb p.lastcycle response.cycle && leb response.cycle p.cycle)
  done (record {
    header = record {
      version = response.header.version;
      msg_type = message_round3_fetch_request;
      payload_len = sizeof_fetch_request - sizeof_header;
    };
    sender_bg_id = response.sender_bg_id;
    sender_sl_id = response.sender_sl_id;
    cycle = response.cycle;
    hash = record {
      bg_id = response.sender_bg_id;
      cycle = p.cycle;
      lastcycle = p.lastcycle;
      hash = replicate sbft_hash_size 0;
    };
    combined_signature = response.combined_signature;
  })

-- The preprepare message by which the leader replicates a fetched response in its group
-- (dispatcher_round3_fetchResponse). The size is a size_t: a payload shorter than the struct would
-- ask for a huge buffer.
pub pack_fetch_response : ℕ → MessageRound3FetchResponse → Outcome MessageRound2Preprepare
pack_fetch_response sl_id r =
    if ltb r.header.payload_len (sizeof_fetch_response - sizeof_header) then undefined else do
      let remote_preprepare_size = r.header.payload_len - (sizeof_fetch_response - sizeof_header)
      let total_size = sizeof_preprepare + (remote_preprepare_size + sbft_combined_signature_size)
      copy ← memcpy remote_preprepare_size r.entire_preprepare_msg
      done (record {
        header = record {
          version = version_latest;
          msg_type = message_round2_preprepare;
          payload_len = u32 (total_size - sizeof_header);
        };
        sender = sl_id;
        view = 0;
        seq = 0;
        bg_id = r.sender_bg_id;
        request_type = request_type_fetched_result;
        cycle = r.cycle;
        lastcycle = u16 (r.cycle + 65535);
        collector_sl_id = 0;
        num_of_round3_participants = 0;
        participants_and_content = r.combined_signature ++ copy;
      })

-- "Some acrobat" of dispatcher_round2_fullCommit: the response is made again out of the replicated
-- message.
pub unpack_fetch_response : MessageRound2Preprepare → Outcome MessageRound3FetchResponse
unpack_fetch_response p =
    if ltb (p.header.payload_len + sizeof_header) (sizeof_preprepare + sbft_combined_signature_size)
    then undefined
    else do
      let remote_preprepare_size =
          p.header.payload_len + sizeof_header - sizeof_preprepare - sbft_combined_signature_size
      signature ← memcpy sbft_combined_signature_size p.participants_and_content
      copy ←
          memcpy remote_preprepare_size
            (drop sbft_combined_signature_size p.participants_and_content)
      done (record {
        header = record {
          version = version_latest;
          msg_type = message_round3_fetch_response;
          payload_len = u32 (sizeof_fetch_response - sizeof_header + remote_preprepare_size);
        };
        sender_bg_id = p.bg_id;
        sender_sl_id = invalid_sender_id;
        cycle = p.cycle;
        combined_signature = signature;
        entire_preprepare_msg = copy;
      })
