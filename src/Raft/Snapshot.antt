-- ===== src/Raft/Snapshot.antt =====
-- raft::persist of src/raft/include/core/raft.h, and _L_installSnapshot and _L_sendSnapshot of
-- src/raft/src/core/raft.cpp: a snapshot of the application takes the place of a log prefix.
pub mod View
use raft_kvstorage.Common.{
  ℕ, ◌+◌, ◌-◌, Bool, true, false, not, ◌&&◌, ◌||◌, List, [], ◌∷◌, Option, none, some, Bytes, length,
  get_elem?, set, drop, max, ltb, leb, ◌==◌, if◌then◌else◌,
}
use raft_kvstorage.Persister.{persist_both, load_snapshot}
use raft_kvstorage.Raft.Message.{LogEntry, InstallSnapshotArgs, InstallSnapshotReply}
use raft_kvstorage.Raft.Node.{
  Node, Codec, Outcome, done, threw, undefined, follower, is_leader, valid_index, last_log_index,
  slices_index, log_at, dump, identity_change,
}
use raft_kvstorage.Raft.Append.{follow}

-- The log without its entries up to `index`, where `index` lies behind the last snapshot.
unfoldable pub drop_until : ℕ → Node → List LogEntry
drop_until index s = drop (index - s.last_snapshot_index - 1 + 1) s.logs

-- The state after a snapshot up to `index`, whose last entry has term `term`.
unfoldable pub cut_log : ℕ → ℕ → Node → Node
unfolding drop_until
cut_log index term s = record s {
  logs = if length s.logs - 1 == index - s.last_snapshot_index - 1 then [] else drop_until index s;
  last_snapshot_index = index;
  last_snapshot_term = term;
  commit_index = if ltb s.commit_index index then index else s.commit_index;
  applied_index = if ltb s.applied_index index then index else s.applied_index;
}

-- The part of the log that `_L_installSnapshot` keeps.
unfoldable pub keep_log : ℕ → Node → List LogEntry
unfolding last_log_index drop_until
keep_log index s = if ltb index (last_log_index s) then drop_until index s else []

unfoldable pub adopt_snapshot : InstallSnapshotArgs → Node → Node
unfolding keep_log
adopt_snapshot args s = record s {
  logs = keep_log args.last_index s;
  commit_index = max s.commit_index args.last_index;
  applied_index = max s.applied_index args.last_index;
  last_snapshot_index = args.last_index;
  last_snapshot_term = args.last_term;
}

module _ ⦃c : Codec⦄ where
  unfoldable pub persist_with : Bytes → Node → Node
  unfolding dump persist_both
  persist_with shot s = record s { disk = persist_both (dump s) shot s.disk }

  -- `persist(index, shot)`: the application has a snapshot up to `index`.
  unfoldable pub persist : ℕ → Bytes → Node → Node × Outcome Bool
  unfolding valid_index
  persist index shot s =
      if not (valid_index (s.last_snapshot_index + 1) index s.commit_index)
      then (s, done false)
      else elim (log_at s index) [
        | none ↦ (s, undefined)
        | some e ↦ (persist_with shot (cut_log index e.term s), done true)
      ]

  -- `_L_installSnapshot`: the state, the reply (which is left alone on one path) and, if the
  -- snapshot is taken over, the arguments whose snapshot goes to the application.
  unfoldable pub install_snapshot :
      ℕ
      → InstallSnapshotArgs
      → InstallSnapshotReply
      → Node
      → Node × InstallSnapshotReply × Option InstallSnapshotArgs
  install_snapshot now args reply s =
      if ltb args.term s.term
      then (s, record { term = s.term }, none)
      else let t = follow now args.term s in
        if leb args.last_index t.last_snapshot_index then (t, reply, none) else (
          persist_with args.content (adopt_snapshot args t),
          record { term = t.term },
          some args,
        )

  -- The first half of `_L_sendSnapshot`: the arguments that it sends.
  unfoldable pub snapshot_args : Node → InstallSnapshotArgs
  unfolding load_snapshot
  snapshot_args s = record {
    content = (load_snapshot s.disk []).0;
    leader_id = s.me;
    term = s.term;
    last_index = s.last_snapshot_index;
    last_term = s.last_snapshot_term;
  }

  -- Its second half: `sent` is the result of the remote call, `reply` its answer.
  unfoldable pub send_snapshot :
      ℕ → ℕ → InstallSnapshotArgs → Bool → InstallSnapshotReply → Node → Node
  unfolding is_leader identity_change
  send_snapshot now server args sent reply s =
      if not sent
      then s
      else if ltb s.term reply.term
      then record (identity_change follower reply.term none s) { last_reset_election_time = now }
      else if not (is_leader s.identity) || not (args.term == s.term)
      then s
      else record s {
        match_index = set s.match_index server args.last_index;
        next_index = set s.next_index server (args.last_index + 1);
      }
