-- ===== src/Scenarios/Messages.antt =====
-- The theorems on messages, at concrete ones.
use rcanopus_membership.Prelude.{◌≡◌, refl, [], ◌∷◌, replicate, arith}
use rcanopus_membership.Outcome.{done, ◌>>=◌}
use rcanopus_membership.Message.{MessageRound2FullCommit, MessageRound3FetchResponse, preprepare}
use rcanopus_membership.Message.Round3.{pack_fetch_response, unpack_fetch_response}
use rcanopus_membership.Message.Round3.Relay.{unpack-pack_fetch_response}
use rcanopus_membership.Message.Wire.{serialize_message, recv_message}
use rcanopus_membership.Message.Wire.RoundTrip.{recv_message-serialize_message}
use rcanopus_membership.Scenarios.{little_endian, header, proposal}

recv_message-serialize_message_example :
    (serialize_message little_endian (preprepare proposal) >>= recv_message little_endian)
    ≡ done (preprepare proposal)
recv_message-serialize_message_example =
    recv_message-serialize_message little_endian (preprepare proposal) (ground arith)
      (λ p e. ground arith)

abbrev fetched : MessageRound3FetchResponse
fetched = record {
  header = header 7 41;
  sender_bg_id = 1;
  sender_sl_id = 2;
  cycle = 5;
  combined_signature = replicate 32 6;
  entire_preprepare_msg = 1 ∷ 2 ∷ 3 ∷ [];
}

unpack-pack_fetch_response_example :
    (pack_fetch_response 0 fetched >>= λ p.
    unpack_fetch_response (record p { view = 1; seq = 8; collector_sl_id = 2 }))
    ≡ done (record fetched { header = header 7 41; sender_sl_id = 0xffff })
unfolding replicate
unpack-pack_fetch_response_example =
    unpack-pack_fetch_response 0 1 8 2 fetched (refl, refl, omega arith)

abbrev agreed : MessageRound2FullCommit
agreed = record { header = header 5 38; sender = 2; view = 0; seq = 7; combined_signature = 4 ∷ [] }
