-- ===== src/Tests/Appending.antt =====
-- _L_appendEntries at concrete messages.
use raft_kvstorage.Common.{◌≢◌, refl, [], ◌∷◌}
use raft_kvstorage.Raft.Node.{
  undefined, log_at, log_term, last_log_index, match_log_term, persist_self, identity_change,
}
use raft_kvstorage.Raft.Append.{
  append_entries, receive_entries, accept_entries, append_loop, append_entry, advance_commit,
  follow,
}
use raft_kvstorage.Raft.Append.Reply.{HasEntries, append_entries_success}
use raft_kvstorage.Raft.Append.Total.{append_entries-defined}
use raft_kvstorage.Tests.Inputs.{codec, follower_node, append_of, no_reply, entry, success}

-- Entry 6 is replaced, and entry 7, which the message does not hold, stays.
append_entries_success_example :
    HasEntries (append_of 1 (entry 6 3 ∷ [])) (log_at follower_node) (
      log_at (append_entries ⦃c = codec⦄ 1 (append_of 1 (entry 6 3 ∷ [])) no_reply follower_node).0)
unfolding append_entries receive_entries accept_entries append_loop append_entry advance_commit
    follow match_log_term log_term last_log_index log_at identity_change persist_self
append_entries_success_example =
    append_entries_success ⦃c = codec⦄ 1 (append_of 1 (entry 6 3 ∷ [])) no_reply follower_node
      success (refl, (refl, (refl, tt))) (refl, tt) refl refl

append_entries-defined_example :
    (append_entries ⦃c = codec⦄ 1 (append_of 1 (entry 6 3 ∷ [])) no_reply follower_node).1
    ≢ undefined
append_entries-defined_example =
    append_entries-defined ⦃c = codec⦄ 1 (append_of 1 (entry 6 3 ∷ [])) no_reply follower_node
      (refl, (refl, (refl, tt))) (refl, tt)
