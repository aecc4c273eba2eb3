-- ===== src/Tests/Leading.antt =====
-- A leader at concrete answers.
use raft_kvstorage.Common.{◌≡◌, refl, true, [], ◌∷◌, arith}
use raft_kvstorage.Raft.Message.{AppendEntriesArgs}
use raft_kvstorage.Raft.Node.{
  log_at, log_term, last_log_index, match_log_term, persist_self, identity_change,
}
use raft_kvstorage.Raft.Append.{
  append_entries, receive_entries, accept_entries, append_loop, append_entry, advance_commit,
  follow,
}
use raft_kvstorage.Raft.Leader.{heart_beat_to, send_append_entries, previous_log_info}
use raft_kvstorage.Raft.Leader.Heartbeat.{heart_beat_replicates}
use raft_kvstorage.Raft.Leader.Commit.{MayCommit, send_append_entries-MayCommit}
use raft_kvstorage.Tests.Inputs.{codec, leader_node, follower_node, no_reply, entry, success}

-- What the leader sends to node 1, whose next index is 6.
abbrev to_node1 : AppendEntriesArgs
to_node1 = record {
  term = 2;
  leader_id = 0;
  prev_log_index = 5;
  prev_log_term = 1;
  entries = entry 6 2 ∷ entry 7 2 ∷ [];
  leader_commit = 6;
}

heart_beat_replicates_example :
    log_at (append_entries ⦃c = codec⦄ 1 to_node1 no_reply follower_node).0 7 ≡ log_at leader_node 7
unfolding append_entries receive_entries accept_entries append_loop append_entry advance_commit
    follow match_log_term log_term last_log_index log_at identity_change persist_self heart_beat_to
    previous_log_info
heart_beat_replicates_example =
    heart_beat_replicates ⦃c = codec⦄ leader_node follower_node 1 6 1 1 to_node1 no_reply success
      (refl, (refl, (refl, tt))) (refl, (refl, (refl, tt))) refl (omega arith) refl refl refl 7
      (omega arith) (omega arith)

send_append_entries-MayCommit_example :
    MayCommit to_node1 success 1 leader_node
      (send_append_entries ⦃c = codec⦄ 1 1 to_node1 true success 1 leader_node).node
unfolding send_append_entries
send_append_entries-MayCommit_example =
    send_append_entries-MayCommit ⦃c = codec⦄ 1 1 to_node1 true success 1 leader_node
      (λ e. absurd (omega arith))
