-- ===== src/Raft/Leader.antt =====
-- raft::execute, _L_heartBeat and _L_sendAppendEntries of src/raft/src/core/raft.cpp, and
-- _M_getPreviousLogInfo of src/raft/include/core/raft.h: what a leader does.
pub mod Heartbeat
pub mod Commit
use raft_kvstorage.Common.{
  ℕ, zero, suc, ◌+◌, ◌-◌, Bool, true, false, not, ◌&&◌, ◌||◌, List, [], ◌∷◌, ◌++◌, Option, none,
  some, Bytes, length, get_elem?, last?, set, drop, max, ltb, leb, ◌==◌, if◌then◌else◌,
}
use raft_kvstorage.Raft.Message.{
  LogEntry, AppendEntriesArgs, AppendEntriesReply, NetState, connected, disconnected,
}
use raft_kvstorage.Raft.Node.{
  Node, Codec, Outcome, done, threw, undefined, follower, is_leader, last_log_index,
  new_command_index, log_at, persist_self, identity_change,
}
use raft_kvstorage.Raft.Vote.{peers, majority}

-- `_M_getPreviousLogInfo`.
unfoldable pub previous_log_info : Node → ℕ → Outcome (ℕ × ℕ)
previous_log_info s server = elim (get_elem? s.next_index server) [
  | none ↦ undefined
  | some next ↦
      if next == s.last_snapshot_index + 1
      then done (s.last_snapshot_index, s.last_snapshot_term)
      else elim (log_at s (next - 1)) [ none ↦ undefined | some e ↦ done (next - 1, e.term) ]
]

-- A thread that a heartbeat starts.
pub data Send : Type 0 where
  send_snapshot_to : ℕ → Send
  send_entries_to : ℕ → AppendEntriesArgs → Send

-- The part of the log behind `prev`.
unfoldable pub entries_after : Node → ℕ → List LogEntry
entries_after s prev =
    if prev == s.last_snapshot_index
    then s.logs
    else drop (prev - s.last_snapshot_index - 1 + 1) s.logs

unfoldable pub append_args : Node → ℕ → ℕ → AppendEntriesArgs
unfolding entries_after
append_args s prev prev_term = record {
  term = s.term;
  leader_id = s.me;
  prev_log_index = prev;
  prev_log_term = prev_term;
  entries = entries_after s prev;
  leader_commit = s.commit_index;
}

-- What the heartbeat sends to one node.
unfoldable pub heart_beat_to : Node → ℕ → Outcome Send
unfolding append_args
heart_beat_to s i = elim (get_elem? s.next_index i) [
  | none ↦ undefined
  | some next ↦
      if leb next s.last_snapshot_index
      then done (send_snapshot_to i)
      else elim (previous_log_info s i) [
        | done (prev, prev_term) ↦ done (send_entries_to i (append_args s prev prev_term))
        | threw ↦ threw
        | undefined ↦ undefined
      ]
]

unfoldable pub heart_beat_all : Node → List ℕ → Outcome (List Send)
heart_beat_all s [] = done []
heart_beat_all s (i ∷ is) = elim (heart_beat_to s i) [
  | done m ↦ elim (heart_beat_all s is) [
    | done ms ↦ done (m ∷ ms)
    | threw ↦ threw
    | undefined ↦ undefined
  ]
  | threw ↦ threw
  | undefined ↦ undefined
]

-- `_L_heartBeat`.
unfoldable pub heart_beat : ℕ → Node → Node × Outcome (List Send)
unfolding is_leader
heart_beat now s =
    if is_leader s.identity
    then (record s { last_reset_heart_beat_time = now }, heart_beat_all s (peers s))
    else (s, done [])

-- What `_L_sendAppendEntries` leaves: the node, the counter that the threads of one heartbeat
-- share, and how it ends.
pub record AppendCount : Type 0 where
  pub node : Node
  pub append_num : ℕ
  pub result : Outcome Bool

-- `args->entries_size() > 0` and the last entry is of the current term.
unfoldable pub ends_in_term : List LogEntry → ℕ → Bool
ends_in_term entries term = elim (last? entries) [ none ↦ false | some e ↦ e.term == term ]

-- Over half the nodes have the entries: the counter starts afresh and the commit index advances.
unfoldable pub commit_majority : AppendEntriesArgs → ℕ → Node → Node × ℕ
unfolding majority ends_in_term
commit_majority args append_num s =
    if leb (majority s) append_num
    then (if ends_in_term args.entries s.term
        then (
          record s {
            commit_index = max s.commit_index (args.prev_log_index + length args.entries);
          },
          0,
        )
        else (s, 0))
    else (s, append_num)

-- The checks that end `_L_sendAppendEntries`.
unfoldable pub check_commit : Node → Outcome Bool
unfolding last_log_index
check_commit s = if ltb (last_log_index s) s.commit_index then threw else done true

-- The node `server` took the entries; `old` is what was known of it.
unfoldable pub append_success : ℕ → AppendEntriesArgs → ℕ → ℕ → Node → AppendCount
unfolding last_log_index commit_majority check_commit
append_success server args append_num old s =
    let found = max old (args.prev_log_index + length args.entries) in
    let t = record s {
      match_index = set s.match_index server found;
      next_index = set s.next_index server (found + 1);
    } in
    if ltb (last_log_index t + 1) (found + 1)
    then record { node = t; append_num = append_num + 1; result = threw }
    else let (u, n) = commit_majority args (append_num + 1) t in
      record { node = u; append_num = n; result = check_commit u }

-- The node `server` refused them.
unfoldable pub append_refused : ℕ → Option ℕ → Node → Node
append_refused server none s = s
append_refused server (some next) s = record s { next_index = set s.next_index server next }

unfoldable pub is_disconnected : NetState → Bool
is_disconnected disconnected = true
is_disconnected connected = false

module _ ⦃c : Codec⦄ where
  -- `execute`, with the dump of its command: the entry's index and term, or `none` for {-1, -1}.
  unfoldable pub execute : Bytes → Node → Node × Option (ℕ × ℕ)
  unfolding is_leader new_command_index persist_self
  execute command s =
      if is_leader s.identity
      then (
        persist_self (record s {
          logs =
              s.logs
              ++ record { command = command; term = s.term; index = new_command_index s } ∷ [];
        }),
        some (new_command_index s, s.term),
      )
      else (s, none)

  -- `_L_sendAppendEntries`: `sent` is the result of the remote call, `reply` its answer.
  unfoldable pub send_append_entries :
      ℕ → ℕ → AppendEntriesArgs → Bool → AppendEntriesReply → ℕ → Node → AppendCount
  unfolding identity_change is_leader append_refused append_success is_disconnected
  send_append_entries now server args sent reply append_num s =
      if not sent
      then record { node = s; append_num = append_num; result = done false }
      else if is_disconnected reply.state
      then record { node = s; append_num = append_num; result = done true }
      else if ltb s.term reply.term
      then record {
        node = record (identity_change follower reply.term none s) {
          last_reset_election_time = now;
        };
        append_num = append_num;
        result = done true;
      }
      else if ltb reply.term s.term || not (is_leader s.identity)
      then record { node = s; append_num = append_num; result = done true }
      else if not reply.success
      then record {
        node = append_refused server reply.update_next_index s;
        append_num = append_num;
        result = done true;
      }
      else elim (get_elem? s.match_index server) [
        | none ↦ record { node = s; append_num = append_num; result = undefined }
        | some old ↦ append_success server args append_num old s
      ]
