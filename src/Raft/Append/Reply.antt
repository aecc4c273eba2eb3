-- ===== src/Raft/Append/Reply.antt =====
-- What _L_appendEntries promises to the leader that calls it.
use raft_kvstorage.Common.{ℕ, ◌+◌, ◌≤◌, ◌<◌, ◌≡◌, refl, ◌⊎◌, true, Option, some, length, All, arith}
use mathlib.Core.Path.{fun_ext}
use raft_kvstorage.Raft.Message.{LogEntry, AppendEntriesArgs, AppendEntriesReply, connected}
use raft_kvstorage.Raft.Node.{
  Node, Codec, Outcome, done, threw, undefined, log_at, slices_index, identity_change, persist_self,
}
use raft_kvstorage.Raft.Log.{IsChained, last_log_index_lem}
use raft_kvstorage.Raft.Append.{
  Loop, finished, failed, out_of_range, append_loop, accept_entries, refuse_mismatch,
  receive_entries, append_entries, follow, refuse, advance_commit,
}
use raft_kvstorage.Raft.Append.Round.{HasLog, InLoop, Grows}
use raft_kvstorage.Raft.Append.Agree.{Merges, append_loop-Merges}

-- The log `after` has the message's entries, and is as the log `before` at every other index.
pub record HasEntries (args : AppendEntriesArgs) (before after : ℕ → Option LogEntry) : Type 0 where
  pub taken : All (λ e. after e.index ≡ some e) args.entries
  pub others :
      (j : ℕ)
      → (j ≤ args.prev_log_index) ⊎ (args.prev_log_index + length args.entries < j)
      → after j ≡ before j

log_at-advance_commit : (n : ℕ) (s : Node) → log_at (advance_commit n s) ≡ log_at s
unfolding log_at slices_index advance_commit
log_at-advance_commit n s = fun_ext λ j. ground arith

-- What accept_entries makes of the loop's end.
abbrev outcome :
    AppendEntriesArgs → AppendEntriesReply → Node → Loop → Node × Outcome AppendEntriesReply
outcome args reply s r = elim r [
  | finished t ↦ (advance_commit args.leader_commit t, done (record reply { success = true }))
  | failed t ↦ (t, threw)
  | out_of_range ↦ (s, undefined)
]

outcome-HasEntries :
    (args : AppendEntriesArgs) (reply : AppendEntriesReply) (s : Node) (a : AppendEntriesReply)
    (r : Loop)
    → InLoop (Merges args.prev_log_index args.entries s) (Grows s) r
    → (outcome args reply s r).1 ≡ done a
    → HasEntries args (log_at s) (log_at (outcome args reply s r).0)
outcome-HasEntries args reply s a (finished t) m e =
    rw (log_at-advance_commit args.leader_commit t) (record { taken = m.taken; others = m.others })
outcome-HasEntries args reply s a (failed t) m e = cc
outcome-HasEntries args reply s a out_of_range m e = cc

accept_entries-HasEntries :
    (args : AppendEntriesArgs) (reply : AppendEntriesReply) (s : Node) (a : AppendEntriesReply)
    → HasLog s
    → IsChained args
    → s.last_snapshot_index ≤ args.prev_log_index
    → args.prev_log_index ≤ s.last_snapshot_index + length s.logs
    → (accept_entries args reply s).1 ≡ done a
    → HasEntries args (log_at s) (log_at (accept_entries args reply s).0)
unfolding accept_entries
accept_entries-HasEntries args reply s a h c lo hi e =
    outcome-HasEntries args reply s a (append_loop args.entries s)
      (append_loop-Merges args.entries args.prev_log_index s h lo hi c) e

receive_entries-HasEntries :
    (args : AppendEntriesArgs) (reply : AppendEntriesReply) (s : Node) (a : AppendEntriesReply)
    → HasLog s
    → IsChained args
    → (receive_entries args reply s).1 ≡ done a
    → a.success ≡ true
    → HasEntries args (log_at s) (log_at (receive_entries args reply s).0)
unfolding receive_entries refuse_mismatch refuse
receive_entries-HasEntries args reply s a h c e ok =
    ground (arith, last_log_index_lem s h, accept_entries-HasEntries args reply s a h c)

module _ ⦃c : Codec⦄ where
  pub log_at-follow : (now term : ℕ) (s : Node) → log_at (follow now term s) ≡ log_at s
  unfolding log_at slices_index follow identity_change persist_self
  log_at-follow now term s = fun_ext λ j. ground arith

  log_at-persist_self : (s : Node) → log_at (persist_self s) ≡ log_at s
  unfolding log_at slices_index persist_self
  log_at-persist_self s = refl

  pub follow-HasLog : (now term : ℕ) (s : Node) → HasLog s → HasLog (follow now term s)
  unfolding follow identity_change persist_self
  follow-HasLog now term s h = ground arith

  -- If a follower answers success, then its log, in which the indices are consecutive, has every
  -- entry of the message, whose entries follow on `prev_log_index`, and at every index outside the
  -- message is as it was.
  pub append_entries_success :
      (now : ℕ) (args : AppendEntriesArgs) (reply : AppendEntriesReply) (s : Node)
      (a : AppendEntriesReply)
      → HasLog s
      → IsChained args
      → (append_entries now args reply s).1 ≡ done a
      → a.success ≡ true
      → HasEntries args (log_at s) (log_at (append_entries now args reply s).0)
  unfolding append_entries
  append_entries_success now args reply s a h chain e ok =
      let t = follow now args.term s in
      let r = record reply { state = connected; term = t.term } in
      ground (
        arith,
        receive_entries-HasEntries args r t a (follow-HasLog now args.term s h) chain,
        log_at-follow now args.term s,
        log_at-persist_self (receive_entries args r t).0,
      )
