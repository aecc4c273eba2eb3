-- ===== src/Cluster/Calls.antt =====
-- What the calls of a node leave alone: its number, the size of the cluster, and its term as long as
-- it stays a leader.
use raft_kvstorage.Common.{ℕ, suc, ◌/◌, ◌<◌, ◌≤◌, ◌≡◌, ◌⊎◌, Bool, true, false, arith}
use raft_kvstorage.Raft.Message.{
  AppendEntriesArgs, AppendEntriesReply, RequestVoteArgs, RequestVoteReply, InstallSnapshotArgs,
  InstallSnapshotReply, connected,
}
use raft_kvstorage.Raft.Node.{Node, Codec, leader, identity_change, persist_self}
use raft_kvstorage.Raft.Vote.{request_vote, stand4election, send_request_vote}
use raft_kvstorage.Raft.Append.{append_entries, follow}
use raft_kvstorage.Raft.Append.Frame.{receive_entries-same}
use raft_kvstorage.Raft.Leader.{execute, heart_beat, send_append_entries}
use raft_kvstorage.Raft.Snapshot.{
  persist, install_snapshot, send_snapshot, cut_log, persist_with, adopt_snapshot,
}
use raft_kvstorage.Raft.Apply.{get_apply_messages}
use raft_kvstorage.Raft.History.{
  Call, step, votes, stands, vote_answered, appends, executes, beats, append_answered, persists,
  installs, snapshot_answered, applies,
}
use raft_kvstorage.Cluster.{Quiet, counts_vote}

-- The node is the same node, and no leader it was not, nor of another term.
pub record Follows (s t : Node) : Type 0 where
  pub me : t.me ≡ s.me
  pub helpers : t.helpers ≡ s.helpers
  pub rules : t.identity ≡ leader → (s.identity ≡ leader) × (t.term ≡ s.term)

module _ ⦃c : Codec⦄ where
  pub request_vote-Follows :
      (now : ℕ) (args : RequestVoteArgs) (s : Node) → Follows s (request_vote now args s).0
  unfolding request_vote
  request_vote-Follows now args s = record {
    me = ground arith;
    helpers = ground arith;
    rules = λ h. ground arith;
  }

  pub granted-term :
      (now : ℕ) (args : RequestVoteArgs) (s : Node)
      → (request_vote now args s).1.term ≡ (request_vote now args s).0.term
  unfolding request_vote
  granted-term now args s = ground arith

  append_entries-Follows :
      (now : ℕ) (args : AppendEntriesArgs) (r : AppendEntriesReply) (s : Node)
      → Follows s (append_entries now args r s).0
  unfolding append_entries follow identity_change persist_self
  append_entries-Follows now args r s =
      let same =
        receive_entries-same args
          (record r { state = connected; term = (follow now args.term s).term })
          (follow now args.term s) in
      record {
        me = ground (arith, same);
        helpers = ground (arith, same);
        rules = λ h. ground (arith, same);
      }

  send_append_entries-Follows :
      (now server : ℕ) (args : AppendEntriesArgs) (sent : Bool) (reply : AppendEntriesReply)
      (append_num : ℕ) (s : Node)
      → Follows s (send_append_entries now server args sent reply append_num s).node
  unfolding send_append_entries
  send_append_entries-Follows now server args sent reply append_num s = record {
    me = ground arith;
    helpers = ground arith;
    rules = λ h. ground arith;
  }

  install_snapshot-Follows :
      (now : ℕ) (args : InstallSnapshotArgs) (reply : InstallSnapshotReply) (s : Node)
      → Follows s (install_snapshot now args reply s).0
  unfolding install_snapshot follow adopt_snapshot persist_with identity_change
  install_snapshot-Follows now args reply s = record {
    me = ground arith;
    helpers = ground arith;
    rules = λ h. ground arith;
  }

  send_snapshot-Follows :
      (now server : ℕ) (args : InstallSnapshotArgs) (sent : Bool) (reply : InstallSnapshotReply)
      (s : Node)
      → Follows s (send_snapshot now server args sent reply s)
  unfolding send_snapshot
  send_snapshot-Follows now server args sent reply s = record {
    me = ground arith;
    helpers = ground arith;
    rules = λ h. ground arith;
  }

  same-Follows :
      (s t : Node)
      → t.me ≡ s.me
      → t.helpers ≡ s.helpers
      → t.identity ≡ s.identity
      → t.term ≡ s.term
      → Follows s t
  same-Follows s t me helpers i e = record { me = me; helpers = helpers; rules = λ h. ground arith }

  pub step-Follows : (op : Call) (s : Node) → Quiet op → Follows s (step op s)
  unfolding step execute heart_beat persist cut_log persist_with get_apply_messages
  step-Follows (votes now args) s q = absurd q
  step-Follows (stands now) s q = absurd q
  step-Follows (vote_answered sent reply vote_num) s q = absurd q
  step-Follows (appends now args reply) s q = append_entries-Follows now args reply s
  step-Follows (executes command) s q =
      same-Follows s _ (ground arith) (ground arith) (ground arith) (ground arith)
  step-Follows (beats now) s q =
      same-Follows s _ (ground arith) (ground arith) (ground arith) (ground arith)
  step-Follows (append_answered now server args sent reply append_num) s q =
      send_append_entries-Follows now server args sent reply append_num s
  step-Follows (persists index shot) s q =
      same-Follows s _ (ground arith) (ground arith) (ground arith) (ground arith)
  step-Follows (installs now args reply) s q = install_snapshot-Follows now args reply s
  step-Follows (snapshot_answered now server args sent reply) s q =
      send_snapshot-Follows now server args sent reply s
  step-Follows applies s q =
      same-Follows s _ (ground arith) (ground arith) (ground arith) (ground arith)

  pub stand4election-me :
      (now : ℕ) (s : Node)
      → ((stand4election now s).0.me ≡ s.me) × ((stand4election now s).0.helpers ≡ s.helpers)
  unfolding stand4election identity_change
  stand4election-me now s = (ground arith, ground arith)

  pub send_request_vote-me :
      (r : RequestVoteReply) (m : ℕ) (s : Node)
      → let k = send_request_vote true r m s in (k.node.me ≡ s.me) × (k.node.helpers ≡ s.helpers)
  unfolding send_request_vote identity_change
  send_request_vote-me r m s = (ground arith, ground arith)

  -- The counter rises by one at most, and only for an answer that is counted.
  pub send_request_vote-count :
      (r : RequestVoteReply) (m : ℕ) (s : Node)
      → let k = send_request_vote true r m s in
        (k.vote_num ≤ suc m) × (counts_vote r s ≡ false → k.vote_num ≤ m)
  unfolding send_request_vote
  send_request_vote-count r m s = (ground arith, λ h. ground arith)

  pub send_request_vote-rules :
      (r : RequestVoteReply) (m : ℕ) (s : Node)
      → let k = send_request_vote true r m s in
        k.node.identity ≡ leader
        → (k.node.term ≡ s.term)
          × ((s.identity ≡ leader)
              ⊎ ((counts_vote r s ≡ true) × (r.term ≡ s.term) × (s.helpers / 2 < suc m)))
  unfolding send_request_vote
  send_request_vote-rules r m s h = ground arith
