-- ===== src/Raft/History/Durable.antt =====
-- What must survive a crash is on disk whenever a call has ended.
use raft_kvstorage.Common.{ℕ, ◌≡◌, Bool, true, List, [], ◌∷◌, arith}
use raft_kvstorage.Raft.Message.{
  AppendEntriesArgs, AppendEntriesReply, RequestVoteArgs, RequestVoteReply, InstallSnapshotArgs,
  InstallSnapshotReply, connected,
}
use raft_kvstorage.Raft.Node.{Node, Codec, persist_self, identity_change, dump}
use raft_kvstorage.Raft.Vote.{request_vote, stand4election, send_request_vote}
use raft_kvstorage.Raft.Append.{append_entries, follow}
use raft_kvstorage.Raft.Append.Frame.{receive_entries-same}
use raft_kvstorage.Raft.Leader.{execute, heart_beat, send_append_entries}
use raft_kvstorage.Raft.Snapshot.{
  persist, install_snapshot, send_snapshot, cut_log, persist_with, adopt_snapshot,
}
use raft_kvstorage.Raft.Apply.{get_apply_messages}
use raft_kvstorage.Raft.History.{
  Call, step, run, votes, stands, vote_answered, appends, executes, beats, append_answered,
  persists, installs, snapshot_answered, applies,
}

module _ ⦃c : Codec⦄ where
  -- The files can be opened, and the state file holds the dump of the node.
  pub record IsDurable (s : Node) : Type 0 where
    pub opens : s.disk.opens ≡ true
    pub saved : s.disk.state_file ≡ dump s

  request_vote-IsDurable :
      (now : ℕ) (args : RequestVoteArgs) (s : Node)
      → IsDurable s
      → IsDurable (request_vote now args s).0
  unfolding request_vote dump
  request_vote-IsDurable now args s w = ground arith

  stand4election-IsDurable : (now : ℕ) (s : Node) → IsDurable s → IsDurable (stand4election now s).0
  unfolding stand4election dump
  stand4election-IsDurable now s w = ground arith

  send_request_vote-IsDurable :
      (b : Bool) (r : RequestVoteReply) (n : ℕ) (s : Node)
      → IsDurable s
      → IsDurable (send_request_vote b r n s).node
  unfolding send_request_vote dump
  send_request_vote-IsDurable b r n s w = ground arith

  append_entries-IsDurable :
      (now : ℕ) (args : AppendEntriesArgs) (reply : AppendEntriesReply) (s : Node)
      → IsDurable s
      → IsDurable (append_entries now args reply s).0
  unfolding append_entries persist_self follow identity_change dump
  append_entries-IsDurable now args reply s w =
      let t = follow now args.term s in
      ground
        (arith, receive_entries-same args (record reply { state = connected; term = t.term }) t)

  send_append_entries-IsDurable :
      (now server : ℕ) (args : AppendEntriesArgs) (sent : Bool) (reply : AppendEntriesReply)
      (append_num : ℕ) (s : Node)
      → IsDurable s
      → IsDurable (send_append_entries now server args sent reply append_num s).node
  unfolding send_append_entries dump
  send_append_entries-IsDurable now server args sent reply append_num s w = ground arith

  install_snapshot-IsDurable :
      (now : ℕ) (args : InstallSnapshotArgs) (reply : InstallSnapshotReply) (s : Node)
      → IsDurable s
      → IsDurable (install_snapshot now args reply s).0
  unfolding install_snapshot follow adopt_snapshot persist_with identity_change dump
  install_snapshot-IsDurable now args reply s w = ground arith

  send_snapshot-IsDurable :
      (now server : ℕ) (args : InstallSnapshotArgs) (sent : Bool) (reply : InstallSnapshotReply)
      (s : Node)
      → IsDurable s
      → IsDurable (send_snapshot now server args sent reply s)
  unfolding send_snapshot dump
  send_snapshot-IsDurable now server args sent reply s w = ground arith

  step-IsDurable : (op : Call) (s : Node) → IsDurable s → IsDurable (step op s)
  unfolding step execute heart_beat persist cut_log persist_with get_apply_messages dump
  step-IsDurable (votes now args) s w = request_vote-IsDurable now args s w
  step-IsDurable (stands now) s w = stand4election-IsDurable now s w
  step-IsDurable (vote_answered sent reply vote_num) s w =
      send_request_vote-IsDurable sent reply vote_num s w
  step-IsDurable (appends now args reply) s w = append_entries-IsDurable now args reply s w
  step-IsDurable (executes command) s w = ground arith
  step-IsDurable (beats now) s w = ground arith
  step-IsDurable (append_answered now server args sent reply append_num) s w =
      send_append_entries-IsDurable now server args sent reply append_num s w
  step-IsDurable (persists index shot) s w = ground arith
  step-IsDurable (installs now args reply) s w = install_snapshot-IsDurable now args reply s w
  step-IsDurable (snapshot_answered now server args sent reply) s w =
      send_snapshot-IsDurable now server args sent reply s w
  step-IsDurable applies s w = ground arith

  -- Once the state file holds the node's term, vote, log and snapshot position, it holds them
  -- after every call, whatever calls the node serves: also after those that step down.
  pub run-IsDurable : (ops : List Call) (s : Node) → IsDurable s → IsDurable (run ops s)
  unfolding run
  run-IsDurable [] s w = w
  run-IsDurable (op ∷ ops) s w = run-IsDurable ops (step op s) (step-IsDurable op s w)
