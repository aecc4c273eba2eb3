-- ===== src/Raft/History/WellFormed.antt =====
-- Every call keeps the log well-formed.
use raft_kvstorage.Common.{
  ℕ, suc, ◌+◌, ◌-◌, ◌≤◌, Bool, true, List, [], ◌∷◌, Bytes, length, arith, length-append,
  length-drop,
}
use raft_kvstorage.Raft.Message.{
  LogEntry, AppendEntriesArgs, AppendEntriesReply, RequestVoteArgs, RequestVoteReply,
  InstallSnapshotArgs, InstallSnapshotReply, connected,
}
use raft_kvstorage.Raft.Node.{
  Node, Codec, Outcome, done, threw, undefined, identity_change, persist_self, new_command_index,
}
use raft_kvstorage.Raft.Log.{
  IsChained, IsWf, last_log_index_lem, Contiguous-append, Contiguous-drop,
}
use raft_kvstorage.Raft.Vote.{request_vote, stand4election, send_request_vote}
use raft_kvstorage.Raft.Append.{
  Loop, finished, failed, out_of_range, append_loop, accept_entries, refuse_mismatch,
  receive_entries, append_entries, follow, advance_commit,
}
use raft_kvstorage.Raft.Append.Round.{InLoop, Grows}
use raft_kvstorage.Raft.Append.Agree.{Merges, append_loop-Merges}
use raft_kvstorage.Raft.Leader.{execute, heart_beat, send_append_entries}
use raft_kvstorage.Raft.Snapshot.{
  persist, install_snapshot, send_snapshot, cut_log, persist_with, adopt_snapshot,
}
use raft_kvstorage.Raft.Apply.{get_apply_messages}
use raft_kvstorage.Raft.History.{
  Call, step, run, votes, stands, vote_answered, appends, executes, beats, append_answered,
  persists, installs, snapshot_answered, applies,
}

-- A longer log at the same place is as good.
Grows-IsWf : (s t : Node) → IsWf s → Grows s t → IsWf t
Grows-IsWf s t w g = ground (arith, g.same, g.has_log, g.longer)

advance_commit-IsWf : (n : ℕ) (s : Node) → IsWf s → IsWf (advance_commit n s)
unfolding advance_commit
advance_commit-IsWf n s w = ground (arith, last_log_index_lem s w.contiguous)

loop-IsWf :
    (p : ℕ) (es : List LogEntry) (s : Node) (r : Loop)
    → IsWf s
    → InLoop (Merges p es s) (Grows s) r
    → InLoop IsWf IsWf r
loop-IsWf p es s (finished t) w m = Grows-IsWf s t w m.grows
loop-IsWf p es s (failed t) w g = Grows-IsWf s t w g
loop-IsWf p es s out_of_range w b = b

accept_entries-IsWf :
    (args : AppendEntriesArgs) (reply : AppendEntriesReply) (s : Node)
    → IsWf s
    → IsChained args
    → s.last_snapshot_index ≤ args.prev_log_index
    → args.prev_log_index ≤ s.last_snapshot_index + length s.logs
    → IsWf (accept_entries args reply s).0
unfolding accept_entries
accept_entries-IsWf args reply s w c lo hi = go (append_loop args.entries s) (
    loop-IsWf args.prev_log_index args.entries s (append_loop args.entries s) w
      (append_loop-Merges args.entries args.prev_log_index s w.contiguous lo hi c))
  where
    go :
        (r : Loop)
        → InLoop IsWf IsWf r
        → IsWf
            (elim r as (λ _. Node × Outcome AppendEntriesReply) [
              | finished t ↦
                  (advance_commit args.leader_commit t, done (record reply { success = true }))
              | failed t ↦ (t, threw)
              | out_of_range ↦ (s, undefined)
            ]).0
    go (finished t) v = advance_commit-IsWf args.leader_commit t v
    go (failed t) v = v
    go out_of_range v = w

receive_entries-IsWf :
    (args : AppendEntriesArgs) (reply : AppendEntriesReply) (s : Node)
    → IsWf s
    → IsChained args
    → IsWf (receive_entries args reply s).0
unfolding receive_entries refuse_mismatch
receive_entries-IsWf args reply s w c =
    ground (arith, last_log_index_lem s w.contiguous, accept_entries-IsWf args reply s w c)

module _ ⦃c : Codec⦄ where
  follow-IsWf : (now term : ℕ) (s : Node) → IsWf s → IsWf (follow now term s)
  unfolding follow identity_change persist_self
  follow-IsWf now term s w = ground arith

  append_entries-IsWf :
      (now : ℕ) (args : AppendEntriesArgs) (reply : AppendEntriesReply) (s : Node)
      → IsWf s
      → IsChained args
      → IsWf (append_entries now args reply s).0
  unfolding append_entries persist_self
  append_entries-IsWf now args reply s w chain =
      let t = follow now args.term s in
      ground (
        arith,
        receive_entries-IsWf args (record reply { state = connected; term = t.term }) t
            (follow-IsWf now args.term s w) chain,
      )

  request_vote-IsWf :
      (now : ℕ) (args : RequestVoteArgs) (s : Node) → IsWf s → IsWf (request_vote now args s).0
  unfolding request_vote
  request_vote-IsWf now args s w = ground arith

  stand4election-IsWf : (now : ℕ) (s : Node) → IsWf s → IsWf (stand4election now s).0
  unfolding stand4election
  stand4election-IsWf now s w = ground arith

  send_request_vote-IsWf :
      (b : Bool) (r : RequestVoteReply) (n : ℕ) (s : Node)
      → IsWf s
      → IsWf (send_request_vote b r n s).node
  unfolding send_request_vote
  send_request_vote-IsWf b r n s w = ground arith

  execute-IsWf : (command : Bytes) (s : Node) → IsWf s → IsWf (execute command s).0
  unfolding execute
  execute-IsWf command s w = ground (
    arith,
    last_log_index_lem s w.contiguous,
    length-append s.logs
        (record { command = command; term = s.term; index = new_command_index s } ∷ []),
    Contiguous-append (suc s.last_snapshot_index) s.logs
        (record { command = command; term = s.term; index = new_command_index s }) w.contiguous,
  )

  heart_beat-IsWf : (now : ℕ) (s : Node) → IsWf s → IsWf (heart_beat now s).0
  unfolding heart_beat
  heart_beat-IsWf now s w = ground arith

  get_apply_messages-IsWf : (s : Node) → IsWf s → IsWf (get_apply_messages s).0
  unfolding get_apply_messages
  get_apply_messages-IsWf s w = ground arith

  send_snapshot-IsWf :
      (now server : ℕ) (args : InstallSnapshotArgs) (sent : Bool) (reply : InstallSnapshotReply)
      (s : Node)
      → IsWf s
      → IsWf (send_snapshot now server args sent reply s)
  unfolding send_snapshot
  send_snapshot-IsWf now server args sent reply s w = ground arith

  pub persist-IsWf : (index : ℕ) (shot : Bytes) (s : Node) → IsWf s → IsWf (persist index shot s).0
  unfolding persist cut_log persist_with
  persist-IsWf index shot s w = ground (
    arith,
    length-drop (index - s.last_snapshot_index - 1 + 1) s.logs,
    Contiguous-drop (suc s.last_snapshot_index) (index - s.last_snapshot_index - 1 + 1) s.logs
        {a = suc index},
  )

  install_snapshot-IsWf :
      (now : ℕ) (args : InstallSnapshotArgs) (reply : InstallSnapshotReply) (s : Node)
      → IsWf s
      → IsWf (install_snapshot now args reply s).0
  unfolding install_snapshot follow adopt_snapshot persist_with persist_self identity_change
  install_snapshot-IsWf now args reply s w =
      let t = follow now args.term s in
      ground (
        arith,
        follow-IsWf now args.term s w,
        last_log_index_lem t,
        length-drop (args.last_index - t.last_snapshot_index - 1 + 1) t.logs,
        Contiguous-drop (suc t.last_snapshot_index)
            (args.last_index - t.last_snapshot_index - 1 + 1) t.logs {a = suc args.last_index},
      )

  send_append_entries-IsWf :
      (now server : ℕ) (args : AppendEntriesArgs) (sent : Bool) (reply : AppendEntriesReply)
      (append_num : ℕ) (s : Node)
      → IsWf s
      → args.prev_log_index + length args.entries ≤ s.last_snapshot_index + length s.logs
      → IsWf (send_append_entries now server args sent reply append_num s).node
  unfolding send_append_entries
  send_append_entries-IsWf now server args sent reply append_num s w fits = ground arith

-- What a call brings along: entries that follow on each other, and, with the answer to a message
-- of this node's own, entries that its log still has.
abbrev pub Fits : Call → Node → Type 0
Fits (appends now args reply) s = IsChained args
Fits (append_answered now server args sent reply append_num) s =
    args.prev_log_index + length args.entries ≤ s.last_snapshot_index + length s.logs
Fits _ s = Unit {0}

module _ ⦃c : Codec⦄ where
  step-IsWf : (op : Call) (s : Node) → Fits op s → IsWf s → IsWf (step op s)
  unfolding step
  step-IsWf (votes now args) s f w = request_vote-IsWf now args s w
  step-IsWf (stands now) s f w = stand4election-IsWf now s w
  step-IsWf (vote_answered sent reply vote_num) s f w =
      send_request_vote-IsWf sent reply vote_num s w
  step-IsWf (appends now args reply) s f w = append_entries-IsWf now args reply s w f
  step-IsWf (executes command) s f w = execute-IsWf command s w
  step-IsWf (beats now) s f w = heart_beat-IsWf now s w
  step-IsWf (append_answered now server args sent reply append_num) s f w =
      send_append_entries-IsWf now server args sent reply append_num s w f
  step-IsWf (persists index shot) s f w = persist-IsWf index shot s w
  step-IsWf (installs now args reply) s f w = install_snapshot-IsWf now args reply s w
  step-IsWf (snapshot_answered now server args sent reply) s f w =
      send_snapshot-IsWf now server args sent reply s w
  step-IsWf applies s f w = get_apply_messages-IsWf s w

  abbrev pub FitsAll : List Call → Node → Type 0
  FitsAll [] s = Unit {0}
  FitsAll (op ∷ ops) s = Fits op s × FitsAll ops (step op s)

  -- Whatever calls a node serves, its log keeps consecutive indices behind the last snapshot, and
  -- last snapshot ≤ applied ≤ committed ≤ newest entry: provided that entries arrive with
  -- consecutive indices, and that answers are to entries which the node's log still has.
  pub run-IsWf : (ops : List Call) (s : Node) → FitsAll ops s → IsWf s → IsWf (run ops s)
  unfolding run
  run-IsWf [] s f w = w
  run-IsWf (op ∷ ops) s f w = run-IsWf ops (step op s) f.1 (step-IsWf op s f.0 w)
