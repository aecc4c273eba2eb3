-- ===== src/Raft/Message.antt =====
-- src/raft/raftBase.proto: the messages between Raft nodes. The `int32` fields hold terms, indices
-- and node numbers, which are not negative; the source's -1 and -2 are `none`.
use raft_kvstorage.Common.{ℕ, Bool, List, Option, Bytes}

pub data NetState : Type 0 where
  disconnected connected : NetState

pub data VoteState : Type 0 where
  killed voted expire normal : VoteState

pub record LogEntry : Type 0 where
  pub command : Bytes
  pub term : ℕ
  pub index : ℕ

pub record AppendEntriesArgs : Type 0 where
  pub term : ℕ
  pub leader_id : ℕ
  pub prev_log_index : ℕ
  pub prev_log_term : ℕ
  pub entries : List LogEntry
  pub leader_commit : ℕ

-- `update_next_index` is `none` for `invalidUpdateNextIndex`.
pub record AppendEntriesReply : Type 0 where
  pub term : ℕ
  pub success : Bool
  pub update_next_index : Option ℕ
  pub state : NetState

pub record RequestVoteArgs : Type 0 where
  pub term : ℕ
  pub candidate_id : ℕ
  pub last_log_index : ℕ
  pub last_log_term : ℕ

pub record RequestVoteReply : Type 0 where
  pub term : ℕ
  pub vote_granted : Bool
  pub state : VoteState

pub record InstallSnapshotArgs : Type 0 where
  pub leader_id : ℕ
  pub term : ℕ
  pub last_index : ℕ
  pub last_term : ℕ
  pub content : Bytes

pub record InstallSnapshotReply : Type 0 where
  pub term : ℕ
