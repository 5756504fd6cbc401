-- ===== src/Const.antt =====
-- const.h: the compile-time constants that the modelled code uses, under their names. Sizes count
-- bytes.
use rcanopus_membership.Prelude.{ℕ, ◌*◌}

abbrev pub version_1_0 : ℕ
version_1_0 = 1

abbrev pub version_latest : ℕ
version_latest = version_1_0

abbrev pub sbft_hash_size : ℕ
sbft_hash_size = 32

abbrev pub sbft_signature_size : ℕ
sbft_signature_size = 32

abbrev pub sbft_combined_signature_size : ℕ
sbft_combined_signature_size = 32

abbrev pub request_batch_size : ℕ
request_batch_size = 1024 * 1024

abbrev pub request_type_from_client : ℕ
request_type_from_client = 0

abbrev pub request_type_fetched_result : ℕ
request_type_fetched_result = 1

abbrev pub request_type_local_connectivity : ℕ
request_type_local_connectivity = 2

abbrev pub request_type_remote_connectivity : ℕ
request_type_remote_connectivity = 3

abbrev pub request_type_local_membership : ℕ
request_type_local_membership = 4

abbrev pub request_type_full_membership : ℕ
request_type_full_membership = 5

abbrev pub invalid_sender_id : ℕ
invalid_sender_id = 0xffff

abbrev pub pipe_read_buffer : ℕ
pipe_read_buffer = 64
