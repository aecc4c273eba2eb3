-- ===== src/Raft/Append.antt =====
-- raft::_L_appendEntries of src/raft/src/core/raft.cpp: a follower takes in its leader's log.
pub mod Frame
pub mod Round
pub mod Agree
pub mod Reply
pub mod Rollback
pub mod Total
use raft_kvstorage.Common.{
  ℕ, zero, suc, ◌+◌, ◌-◌, Bool, true, false, List, [], ◌∷◌, ◌++◌, Option, none, some, get_elem?,
  set, min, ltb, ◌==◌, bytes_eq, if◌then◌else◌,
}
use raft_kvstorage.Raft.Message.{LogEntry, AppendEntriesArgs, AppendEntriesReply, connected}
use raft_kvstorage.Raft.Node.{
  Node, Codec, Outcome, done, threw, undefined, follower, matches, last_log_index, slices_index,
  log_term, match_log_term, persist_self, identity_change,
}

-- The loop over the entries; the node is the one that the loop leaves behind.
pub data Loop : Type 0 where
  finished : Node → Loop
  failed : Node → Loop
  out_of_range : Loop

-- An entry whose index lies within the log, at slot `i` of the deque.
unfoldable pub put_entry : ℕ → LogEntry → Node → Loop
unfolding bytes_eq
put_entry i log s = elim (get_elem? s.logs i) [
  | none ↦ out_of_range
  | some old ↦
      if old.term == log.term
      then (if bytes_eq old.command log.command then finished s else failed s)
      else finished (record s { logs = set s.logs i log })
]

unfoldable pub append_entry : LogEntry → Node → Loop
unfolding last_log_index slices_index put_entry
append_entry log s =
    if ltb (last_log_index s) log.index
    then finished (record s { logs = s.logs ++ log ∷ [] })
    else elim (slices_index s log.index) [ none ↦ out_of_range | some i ↦ put_entry i log s ]

unfoldable pub append_loop : List LogEntry → Node → Loop
append_loop [] s = finished s
append_loop (log ∷ rest) s = elim (append_entry log s) [
  | finished t ↦ append_loop rest t
  | failed t ↦ failed t
  | out_of_range ↦ out_of_range
]

unfoldable pub same_term : Option ℕ → Option ℕ → Bool
same_term none none = true
same_term (some a) (some b) = a == b
same_term _ _ = false

-- The loop that goes back to the first entry of a term, `rounds` steps from `index` at most: the
-- index that the reply asks for.
unfoldable pub rollback : Node → ℕ → Option ℕ → ℕ → ℕ → Outcome ℕ
rollback s prev term zero index = done prev
rollback s prev term (suc rounds) index =
    let rest = rollback s prev term rounds (index - 1) in
    elim (log_term s index) [
      | done t ↦ if same_term t term then rest else done (index + 1)
      | threw ↦ threw
      | undefined ↦ undefined
    ]

-- The whole search, from `prev` down to the last snapshot.
unfoldable pub rollback_index : Node → ℕ → Outcome ℕ
rollback_index s prev = elim (log_term s prev) [
  | done t ↦ rollback s prev t (prev + 1 - s.last_snapshot_index) prev
  | threw ↦ threw
  | undefined ↦ undefined
]

unfoldable pub advance_commit : ℕ → Node → Node
unfolding last_log_index
advance_commit leader_commit s =
    if ltb s.commit_index leader_commit
    then record s { commit_index = min leader_commit (last_log_index s) }
    else s

unfoldable pub refuse : ℕ → AppendEntriesReply → AppendEntriesReply
refuse next reply = record reply { success = false; update_next_index = some next }

-- The logs agree at `prev_log_index`: the entries are taken over.
unfoldable pub accept_entries :
    AppendEntriesArgs → AppendEntriesReply → Node → Node × Outcome AppendEntriesReply
accept_entries args reply s = elim (append_loop args.entries s) [
  | finished t ↦ (advance_commit args.leader_commit t, done (record reply { success = true }))
  | failed t ↦ (t, threw)
  | out_of_range ↦ (s, undefined)
]

-- The logs disagree there: the reply asks for an earlier start.
unfoldable pub refuse_mismatch :
    AppendEntriesArgs → AppendEntriesReply → Node → Node × Outcome AppendEntriesReply
refuse_mismatch args reply s = elim (rollback_index s args.prev_log_index) [
  | done next ↦ (s, done (refuse next reply))
  | threw ↦ (s, threw)
  | undefined ↦ (s, undefined)
]

-- `_L_appendEntries` from the first look at `prev_log_index` on.
unfoldable pub receive_entries :
    AppendEntriesArgs → AppendEntriesReply → Node → Node × Outcome AppendEntriesReply
receive_entries args reply s =
    if ltb (last_log_index s) args.prev_log_index
    then (s, done (refuse (last_log_index s + 1) reply))
    else if ltb args.prev_log_index s.last_snapshot_index
    then (s, done (refuse (s.last_snapshot_index + 1) reply))
    else elim (match_log_term s args.prev_log_index args.prev_log_term) [
      | done matches ↦ accept_entries args reply s
      | done _ ↦ refuse_mismatch args reply s
      | threw ↦ (s, threw)
      | undefined ↦ (s, undefined)
    ]

module _ ⦃c : Codec⦄ where
  -- A message of a leader whose term is not older makes the node its follower.
  unfoldable pub follow : ℕ → ℕ → Node → Node
  follow now term s = record (if ltb s.term term then identity_change follower term none s else s) {
    identity = follower;
    last_reset_election_time = now;
  }

  -- `_L_appendEntries`. The deferred `_M_persist` runs also when the loop throws.
  unfoldable pub append_entries :
      ℕ → AppendEntriesArgs → AppendEntriesReply → Node → Node × Outcome AppendEntriesReply
  append_entries now args reply s =
      if ltb args.term s.term
      then (
        s,
        done (record reply {
          state = connected;
          success = false;
          term = s.term;
          update_next_index = none;
        }),
      )
      else let t = follow now args.term s in
        let (u, r) = receive_entries args (record reply { state = connected; term = t.term }) t in
        (persist_self u, r)
