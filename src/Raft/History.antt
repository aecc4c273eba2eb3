-- ===== src/Raft/History.antt =====
-- A node as the sequence of its methods that hold `_M_mutex`, in the order in which they get it:
-- src/raft/src/core/raft.cpp and src/raft/include/core/raft.h.
pub mod Durable
pub mod Promise
pub mod WellFormed
use raft_kvstorage.Common.{ℕ, Bool, List, [], ◌∷◌, Bytes}
use raft_kvstorage.Raft.Message.{
  AppendEntriesArgs, AppendEntriesReply, RequestVoteArgs, RequestVoteReply, InstallSnapshotArgs,
  InstallSnapshotReply,
}
use raft_kvstorage.Raft.Node.{Node, Codec}
use raft_kvstorage.Raft.Vote.{request_vote, stand4election, send_request_vote}
use raft_kvstorage.Raft.Append.{append_entries}
use raft_kvstorage.Raft.Leader.{execute, heart_beat, send_append_entries}
use raft_kvstorage.Raft.Snapshot.{persist, install_snapshot, send_snapshot}
use raft_kvstorage.Raft.Apply.{get_apply_messages}

-- A call, with the clock's reading and what the others answered.
pub data Call : Type 0 where
  votes : ℕ → RequestVoteArgs → Call
  stands : ℕ → Call
  vote_answered : Bool → RequestVoteReply → ℕ → Call
  appends : ℕ → AppendEntriesArgs → AppendEntriesReply → Call
  executes : Bytes → Call
  beats : ℕ → Call
  append_answered : ℕ → ℕ → AppendEntriesArgs → Bool → AppendEntriesReply → ℕ → Call
  persists : ℕ → Bytes → Call
  installs : ℕ → InstallSnapshotArgs → InstallSnapshotReply → Call
  snapshot_answered : ℕ → ℕ → InstallSnapshotArgs → Bool → InstallSnapshotReply → Call
  applies : Call

module _ ⦃c : Codec⦄ where
  unfoldable pub step : Call → Node → Node
  step (votes now args) s = (request_vote now args s).0
  step (stands now) s = (stand4election now s).0
  step (vote_answered sent reply vote_num) s = (send_request_vote sent reply vote_num s).node
  step (appends now args reply) s = (append_entries now args reply s).0
  step (executes command) s = (execute command s).0
  step (beats now) s = (heart_beat now s).0
  step (append_answered now server args sent reply append_num) s =
      (send_append_entries now server args sent reply append_num s).node
  step (persists index shot) s = (persist index shot s).0
  step (installs now args reply) s = (install_snapshot now args reply s).0
  step (snapshot_answered now server args sent reply) s = send_snapshot now server args sent reply s
  step applies s = (get_apply_messages s).0

  unfoldable pub run : List Call → Node → Node
  unfolding step
  run [] s = s
  run (op ∷ ops) s = run ops (step op s)
