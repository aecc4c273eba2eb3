-- ===== src/Raft/Leader/Commit.antt =====
-- When _L_sendAppendEntries moves the commit index of a leader.
use raft_kvstorage.Common.{
  ℕ, ◌+◌, ◌/◌, ◌≤◌, ◌<◌, ◌≡◌, ◌≢◌, Bool, true, [], some, length, arith, get_elem?, last?,
}
use raft_kvstorage.Raft.Message.{LogEntry, AppendEntriesArgs, AppendEntriesReply}
use raft_kvstorage.Raft.Node.{Node, Codec, done, leader}
use raft_kvstorage.Raft.Log.{last_log_index_lem}
use raft_kvstorage.Raft.Append.Round.{HasLog}
use raft_kvstorage.Raft.Leader.{send_append_entries}

-- The reasons for which a leader may commit up to the end of a message: it is a leader still, the
-- answer is a success of its own term, more than half the nodes have answered so, counting itself,
-- and the message's last entry is of its own term.
pub record MayCommit (args : AppendEntriesArgs) (reply : AppendEntriesReply) (append_num : ℕ)
    (s t : Node) : Type 0 where
  pub leads : s.identity ≡ leader
  pub succeeded : reply.success ≡ true
  pub this_term : reply.term ≡ s.term
  pub over_half : s.helpers / 2 < append_num + 1
  pub ends_here : (e : LogEntry) × (last? args.entries ≡ some e) × (e.term ≡ s.term)
  pub up_to : t.commit_index ≡ args.prev_log_index + length args.entries
  pub advances : s.commit_index < t.commit_index

module _ ⦃c : Codec⦄ where
  -- When `_L_sendAppendEntries` deals with an answer, it moves the commit index only forward, to the
  -- last entry of the message, and only if the node leads, the follower answers success in the node's
  -- term, with this answer more than half of the nodes have the message, and the message's last entry,
  -- which it must have, is of the node's term.
  pub send_append_entries-MayCommit :
      (now server : ℕ) (args : AppendEntriesArgs) (sent : Bool) (reply : AppendEntriesReply)
      (append_num : ℕ) (s : Node)
      → let t = (send_append_entries now server args sent reply append_num s).node in
        t.commit_index ≢ s.commit_index → MayCommit args reply append_num s t
  unfolding send_append_entries
  send_append_entries-MayCommit now server args sent reply append_num s ne = ground arith

  -- The answer to a message without entries never moves the commit index, however many nodes have
  -- answered.
  send_append_entries_empty :
      (now server : ℕ) (args : AppendEntriesArgs) (sent : Bool) (reply : AppendEntriesReply)
      (append_num : ℕ) (s : Node)
      → args.entries ≡ []
      → (send_append_entries now server args sent reply append_num s).node.commit_index
        ≡ s.commit_index
  unfolding send_append_entries
  send_append_entries_empty now server args sent reply append_num s e = ground arith

  -- The answer to a message whose entries the leader's log still has raises no exception and stays
  -- inside the vectors, if the follower is known and the leader's bookkeeping is within the log.
  send_append_entries-done :
      (now server old : ℕ) (args : AppendEntriesArgs) (sent : Bool) (reply : AppendEntriesReply)
      (append_num : ℕ) (s : Node)
      → HasLog s
      → s.commit_index ≤ s.last_snapshot_index + length s.logs
      → args.prev_log_index + length args.entries ≤ s.last_snapshot_index + length s.logs
      → get_elem? s.match_index server ≡ some old
      → old ≤ s.last_snapshot_index + length s.logs
      → (send_append_entries now server args sent reply append_num s).result ≡ done sent
  unfolding send_append_entries
  send_append_entries-done now server old args sent reply append_num s h committed fits known le =
      ground (arith, last_log_index_lem s h)
