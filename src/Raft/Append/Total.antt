-- ===== src/Raft/Append/Total.antt =====
-- On a well-formed log _L_appendEntries answers or throws, and never reads outside the deque.
use raft_kvstorage.Common.{ℕ, ◌≢◌, arith}
use raft_kvstorage.Raft.Message.{AppendEntriesArgs, AppendEntriesReply, connected}
use raft_kvstorage.Raft.Node.{Node, Codec, undefined, match_log_term}
use raft_kvstorage.Raft.Log.{IsChained, last_log_index_lem}
use raft_kvstorage.Raft.Append.{
  append_loop, accept_entries, refuse_mismatch, receive_entries, append_entries, follow,
}
use raft_kvstorage.Raft.Append.Round.{HasLog, InLoop, Grows}
use raft_kvstorage.Raft.Append.Agree.{Merges, append_loop-Merges}
use raft_kvstorage.Raft.Append.Rollback.{rollback_index-IsStart, log_term-done}
use raft_kvstorage.Raft.Append.Reply.{follow-HasLog}

loop-defined :
    (p : ℕ) (args : AppendEntriesArgs) (reply : AppendEntriesReply) (s : Node)
    → InLoop (Merges p args.entries s) (Grows s) (append_loop args.entries s)
    → (accept_entries args reply s).1 ≢ undefined
unfolding accept_entries
loop-defined p args reply s m e = ground (arith)

receive_entries-defined :
    (args : AppendEntriesArgs) (reply : AppendEntriesReply) (s : Node)
    → HasLog s
    → IsChained args
    → (receive_entries args reply s).1 ≢ undefined
unfolding receive_entries refuse_mismatch match_log_term
receive_entries-defined args reply s h c e =
    let (t, got) = log_term-done s args.prev_log_index h in
    let (n, back, _) = rollback_index-IsStart s args.prev_log_index h in
    ground (
      arith,
      last_log_index_lem s h,
      append_loop-Merges args.entries args.prev_log_index s h,
      loop-defined args.prev_log_index args reply s,
    )

module _ ⦃c : Codec⦄ where
  -- On a log with consecutive indices, no message with consecutive entries makes the handler read
  -- outside the deque.
  pub append_entries-defined :
      (now : ℕ) (args : AppendEntriesArgs) (reply : AppendEntriesReply) (s : Node)
      → HasLog s
      → IsChained args
      → (append_entries now args reply s).1 ≢ undefined
  unfolding append_entries
  append_entries-defined now args reply s h chain e =
      let t = follow now args.term s in
      ground (
        arith,
        receive_entries-defined args (record reply { state = connected; term = t.term }) t
            (follow-HasLog now args.term s h) chain,
      )
