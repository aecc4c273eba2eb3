-- ===== src/Raft/Apply.antt =====
-- The constructor of `raft`, _M_getApplyMessages and waitApplied of src/raft/src/core/raft.cpp, and
-- the messages of src/raft/include/core/applyMessage.h.
pub mod Deliver
pub mod Restart
use raft_kvstorage.Common.{
  ℕ, zero, suc, ◌+◌, ◌-◌, Bool, true, false, List, [], ◌∷◌, Option, none, some, Bytes, replicate,
  ltb, leb, if◌then◌else◌,
}
use raft_kvstorage.Persister.{Disk, load_state}
use raft_kvstorage.Raft.Message.{InstallSnapshotArgs}
use raft_kvstorage.Raft.Node.{
  Node, Codec, Outcome, done, threw, undefined, follower, last_log_index, log_at, load,
}

-- A field that a constructor of `applyMessage` sets to -1 is not read, and is 0 here.
pub record ApplyMessage : Type 0 where
  pub valid_command : Bool
  pub command_index : ℕ
  pub command : Bytes
  pub valid_snapshot : Bool
  pub snapshot_index : ℕ
  pub snapshot_term : ℕ
  pub snapshot : Bytes

unfoldable pub command_message : ℕ → Bytes → ApplyMessage
command_message index command = record {
  valid_command = true;
  command_index = index;
  command = command;
  valid_snapshot = false;
  snapshot_index = 0;
  snapshot_term = 0;
  snapshot = [];
}

-- What `_L_installSnapshot` hands to the application.
unfoldable pub snapshot_message : InstallSnapshotArgs → ApplyMessage
snapshot_message args = record {
  valid_command = false;
  command_index = 0;
  command = [];
  valid_snapshot = true;
  snapshot_index = args.last_index;
  snapshot_term = args.last_term;
  snapshot = args.content;
}

-- The messages for the `n` entries from `index` on.
unfoldable pub messages_from : Node → ℕ → ℕ → Outcome (List ApplyMessage)
messages_from s index zero = done []
messages_from s index (suc n) = elim (log_at s index) [
  | none ↦ undefined
  | some e ↦ elim (messages_from s (suc index) n) [
    | done ms ↦ done (command_message index e.command ∷ ms)
    | threw ↦ threw
    | undefined ↦ undefined
  ]
]

-- `_M_getApplyMessages`: the committed entries that have not been applied.
unfoldable pub get_apply_messages : Node → Node × Outcome (List ApplyMessage)
get_apply_messages s =
    if ltb (last_log_index s) s.commit_index
    then (s, threw)
    else if ltb s.commit_index s.applied_index
    then (s, threw)
    else (
      record s { applied_index = s.commit_index },
      messages_from s (suc s.applied_index) (s.commit_index - s.applied_index),
    )

-- `waitApplied`, called in state `before` and woken in state `after`.
unfoldable pub wait_applied : Node → Node → Bool
wait_applied before after = leb before.commit_index after.applied_index

-- A node before its constructor has read the state file.
unfoldable pub blank : ℕ → ℕ → ℕ → Disk → Node
blank me helpers now disk = record {
  helpers = helpers;
  logs = [];
  next_index = replicate helpers 0;
  match_index = replicate helpers 0;
  last_reset_election_time = now;
  last_reset_heart_beat_time = now;
  disk = disk;
  commit_index = 0;
  applied_index = 0;
  last_snapshot_index = 0;
  last_snapshot_term = 0;
  me = me;
  term = 0;
  vote4 = none;
  identity = follower;
}

unfoldable pub resume : Node → Node
resume s =
    if ltb 0 s.last_snapshot_index then record s { applied_index = s.last_snapshot_index } else s

module _ ⦃c : Codec⦄ where
  -- The constructor of `raft`.
  unfoldable pub construct : ℕ → ℕ → ℕ → Disk → Outcome Node
  unfolding load blank resume
  construct me helpers now disk = elim (load (load_state disk []).0 (blank me helpers now disk)) [
    | done s ↦ done (resume s)
    | threw ↦ threw
    | undefined ↦ undefined
  ]
