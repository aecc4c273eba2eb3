-- ===== src/Tests/Inputs.antt =====
-- Nodes and messages on which the tests run.
use raft_kvstorage.Common.{ℕ, true, false, List, [], ◌∷◌, none, some, Bytes}
use raft_kvstorage.Persister.{Disk}
use raft_kvstorage.Raft.Message.{
  LogEntry, AppendEntriesArgs, AppendEntriesReply, RequestVoteArgs, RequestVoteReply,
  InstallSnapshotArgs, connected, disconnected, normal,
}
use raft_kvstorage.Raft.Node.{Node, Codec, Identity, follower, leader}

-- A codec that keeps the term and the snapshot's index.
abbrev pub codec : Codec
codec = record {
  encode = λ n. n.term ∷ n.last_snapshot_index ∷ [];
  decode = λ b. elim b [
    | [] ↦ none
    | t ∷ _ ↦ some (record {
      logs = [];
      term = t;
      vote4 = none;
      last_snapshot_index = 4;
      last_snapshot_term = 1;
    })
  ];
}

abbrev pub disk : Bytes → Disk
disk state = record { opens = true; state_file = state; snapshot_file = []; state_file_size = 0 }

abbrev pub entry : ℕ → ℕ → LogEntry
entry index term = record { command = index ∷ []; term = term; index = index }

-- Node 0 of three, at term 2, with a snapshot up to entry 4 and the entries 5, 6 and 7.
abbrev pub node : Identity → Node
node who = record {
  helpers = 3;
  logs = entry 5 1 ∷ entry 6 2 ∷ entry 7 2 ∷ [];
  next_index = 8 ∷ 6 ∷ 8 ∷ [];
  match_index = 7 ∷ 0 ∷ 0 ∷ [];
  last_reset_election_time = 0;
  last_reset_heart_beat_time = 0;
  disk = disk (2 ∷ 4 ∷ []);
  commit_index = 6;
  applied_index = 5;
  last_snapshot_index = 4;
  last_snapshot_term = 1;
  me = 0;
  term = 2;
  vote4 = none;
  identity = who;
}

abbrev pub follower_node : Node
follower_node = node follower

abbrev pub leader_node : Node
leader_node = node leader

abbrev pub vote_of : ℕ → RequestVoteArgs
vote_of candidate = record {
  term = 3;
  candidate_id = candidate;
  last_log_index = 7;
  last_log_term = 2;
}

abbrev pub append_of : ℕ → List LogEntry → AppendEntriesArgs
append_of prev_term entries = record {
  term = 2;
  leader_id = 1;
  prev_log_index = 5;
  prev_log_term = prev_term;
  entries = entries;
  leader_commit = 7;
}

abbrev pub no_reply : AppendEntriesReply
no_reply = record { term = 0; success = false; update_next_index = some 0; state = disconnected }

abbrev pub success : AppendEntriesReply
success = record { term = 2; success = true; update_next_index = some 0; state = connected }

abbrev pub granted : RequestVoteReply
granted = record { term = 2; vote_granted = true; state = normal }

abbrev pub snapshot_of : ℕ → InstallSnapshotArgs
snapshot_of index = record {
  leader_id = 1;
  term = 2;
  last_index = index;
  last_term = 2;
  content = 9 ∷ [];
}
