-- ===== src/Message/Sent.antt =====
-- QueueElement.h, clone, and ConnManager.cpp, sender: of a message getMessageSize bytes are copied and sent.
use rcanopus_membership.Prelude.{ℕ, ◌+◌, ◌-◌, ltb, ◌==◌, if◌then◌else◌, List, length, take}
use rcanopus_membership.Outcome.{Outcome, done, undefined, ◌>>=◌}
use rcanopus_membership.Message.{
  Message, hello, request, preprepare, partial_commit, full_commit, fetch_request, fetch_response,
  general_fetch, full_membership, preprepare_baseline, partial_commit_baseline,
  full_commit_baseline, empty, sizeof_header, sizeof_request, sizeof_preprepare,
  sizeof_partial_commit, sizeof_full_commit, sizeof_fetch_request, sizeof_fetch_response,
  sizeof_general_fetch, sizeof_full_membership, sizeof_preprepare_baseline,
  sizeof_partial_commit_baseline, sizeof_full_commit_baseline,
}

-- What is left of the bytes behind a struct: more than there are is an access out of bounds, and fewer
-- than the struct has leave a message of another layout.
unfoldable pub cut_content : ℕ → ℕ → List ℕ → Outcome (List ℕ)
cut_content size struct_size content =
    if ltb size struct_size
    then undefined
    else if ltb (struct_size + length content) size
    then undefined
    else done (take (size - struct_size) content)

unfoldable pub cut_struct : ℕ → ℕ → Message → Outcome Message
cut_struct size struct_size m = if size == struct_size then done m else undefined

-- The first bytes of a message.
unfoldable pub first_bytes : ℕ → Message → Outcome Message
unfolding cut_content cut_struct
first_bytes size (hello p) = cut_struct size (sizeof_header + 4) (hello p)
first_bytes size (request p) = do
  content ← cut_content size sizeof_request p.content
  done (request (record p { content = content }))
first_bytes size (preprepare p) = do
  content ← cut_content size sizeof_preprepare p.participants_and_content
  done (preprepare (record p { participants_and_content = content }))
first_bytes size (partial_commit p) = cut_struct size sizeof_partial_commit (partial_commit p)
first_bytes size (full_commit p) = cut_struct size sizeof_full_commit (full_commit p)
first_bytes size (fetch_request p) = cut_struct size sizeof_fetch_request (fetch_request p)
first_bytes size (fetch_response p) = do
  content ← cut_content size sizeof_fetch_response p.entire_preprepare_msg
  done (fetch_response (record p { entire_preprepare_msg = content }))
first_bytes size (general_fetch p) = cut_struct size sizeof_general_fetch (general_fetch p)
first_bytes size (full_membership p) = do
  content ← cut_content size sizeof_full_membership p.connectivity
  done (full_membership (record p { connectivity = content }))
first_bytes size (preprepare_baseline p) = do
  content ← cut_content size sizeof_preprepare_baseline p.content
  done (preprepare_baseline (record p { content = content }))
first_bytes size (partial_commit_baseline p) =
    cut_struct size sizeof_partial_commit_baseline (partial_commit_baseline p)
first_bytes size (full_commit_baseline p) =
    cut_struct size sizeof_full_commit_baseline (full_commit_baseline p)
first_bytes size (empty h) = cut_struct size sizeof_header (empty h)
