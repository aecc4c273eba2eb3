-- ===== src/Raft/Leader/Heartbeat.antt =====
-- What _L_heartBeat sends, and that it makes the receiver's log agree with the leader's.
use raft_kvstorage.Common.{
  ℕ, suc, ◌+◌, ◌-◌, ◌≤◌, ◌<◌, ◌≡◌, refl, ◌∙◌, sym, subst, ap, true, List, [], ◌∷◌, some, length,
  length-drop, All, arith, get_elem?, get_elem?-drop, All-get_elem?,
}
use native.Mathlib.Decide.{dec_lt}
use raft_kvstorage.Raft.Message.{LogEntry, AppendEntriesArgs, AppendEntriesReply}
use raft_kvstorage.Raft.Node.{
  Node, Codec, Outcome, done, threw, undefined, log_at, log_term, slices_index,
}
use raft_kvstorage.Raft.Vote.{peers}
use raft_kvstorage.Raft.Log.{IsChained, Contiguous-drop, last_log_index_lem}
use raft_kvstorage.Raft.Log.Lookup.{log_at-some}
use raft_kvstorage.Raft.Append.{append_entries}
use raft_kvstorage.Raft.Append.Round.{HasLog}
use raft_kvstorage.Raft.Append.Reply.{append_entries_success}
use raft_kvstorage.Raft.Leader.{
  Send, send_snapshot_to, send_entries_to, entries_after, append_args, previous_log_info,
  heart_beat_to, heart_beat_all, heart_beat,
}

-- A message from `s`: its term and commit index, and all its entries behind `prev_log_index`,
-- with the term of the entry there.
pub record IsCurrent (s : Node) (args : AppendEntriesArgs) : Type 0 where
  pub of_term : args.term ≡ s.term
  pub of_commit : args.leader_commit ≡ s.commit_index
  pub prev_at_snapshot : s.last_snapshot_index ≤ args.prev_log_index
  pub prev_term : log_term s args.prev_log_index ≡ done (some args.prev_log_term)
  pub chained : IsChained args
  pub to_the_end : args.prev_log_index + length args.entries ≡ s.last_snapshot_index + length s.logs

abbrev pub Sound : Node → Outcome Send → Type 0
Sound s (done (send_snapshot_to i)) = Unit
Sound s (done (send_entries_to i args)) = IsCurrent s args
Sound s threw = ⊥
Sound s undefined = ⊥

entries_after-IsCurrent :
    (s : Node) (prev term : ℕ)
    → HasLog s
    → s.last_snapshot_index ≤ prev
    → prev ≤ s.last_snapshot_index + length s.logs
    → log_term s prev ≡ done (some term)
    → IsCurrent s (append_args s prev term)
unfolding append_args
entries_after-IsCurrent s prev term h lo hi e = record {
  of_term = refl;
  of_commit = refl;
  prev_at_snapshot = lo;
  prev_term = e;
  chained = ground (
    arith,
    Contiguous-drop (suc s.last_snapshot_index) (prev - s.last_snapshot_index - 1 + 1) s.logs
        {a = suc prev},
  );
  to_the_end = ground (arith, length-drop (prev - s.last_snapshot_index - 1 + 1) s.logs);
}

log_term-snapshot : (s : Node) → log_term s s.last_snapshot_index ≡ done (some s.last_snapshot_term)
unfolding log_term
log_term-snapshot s = ground arith

log_term-log_at :
    (s : Node) (i : ℕ) (e : LogEntry)
    → HasLog s
    → s.last_snapshot_index < i
    → i ≤ s.last_snapshot_index + length s.logs
    → log_at s i ≡ some e
    → log_term s i ≡ done (some e.term)
unfolding log_term
log_term-log_at s i e h lo hi got = ground (arith, last_log_index_lem s h)

heart_beat_to-Sound :
    (s : Node) (i n : ℕ)
    → HasLog s
    → get_elem? s.next_index i ≡ some n
    → n ≤ suc (s.last_snapshot_index + length s.logs)
    → Sound s (heart_beat_to s i)
unfolding heart_beat_to previous_log_info
heart_beat_to-Sound s i n h got hi = elim (dec_lt (suc s.last_snapshot_index) n) [
  | yes inside ↦
      let (e, at, _) = log_at-some s (n - 1) h (omega arith) (omega arith) in
      ground (
        arith,
        entries_after-IsCurrent s (n - 1) e.term h (omega arith) (omega arith)
            (log_term-log_at s (n - 1) e h (omega arith) (omega arith) at),
      )
  | no edge ↦ ground (
    arith,
    entries_after-IsCurrent s s.last_snapshot_index s.last_snapshot_term h (omega arith)
        (omega arith) (log_term-snapshot s),
  )
]

-- The entries of a current message, found by their indices.
entries-log_at :
    (s : Node) (prev j : ℕ) (e : LogEntry)
    → HasLog s
    → s.last_snapshot_index ≤ prev
    → prev < j
    → log_at s j ≡ some e
    → get_elem? (entries_after s prev) (j - prev - 1) ≡ some e
unfolding entries_after log_at slices_index
entries-log_at s prev j e h lo lt got =
    ground (arith, get_elem?-drop (prev - s.last_snapshot_index - 1 + 1) s.logs (j - prev - 1))

-- Which messages a heartbeat can hold.
heart_beat_to-entries :
    (s : Node) (i k : ℕ) (args : AppendEntriesArgs)
    → heart_beat_to s i ≡ done (send_entries_to k args)
    → args.entries ≡ entries_after s args.prev_log_index
unfolding heart_beat_to append_args
heart_beat_to-entries s i k args e = ground arith

abbrev pub AllSound : Node → Outcome (List Send) → Type 0
AllSound s (done ms) = All (λ m. Sound s (done m)) ms
AllSound s threw = ⊥
AllSound s undefined = ⊥

-- Each other node's next index is known, and is no more than one past the log's end.
abbrev pub NextInRange : Node → List ℕ → Type 0
NextInRange s = All λ i.
    (n : ℕ) × (get_elem? s.next_index i ≡ some n)
    × (n ≤ suc (s.last_snapshot_index + length s.logs))

heart_beat_all-AllSound :
    (s : Node) (is : List ℕ) → HasLog s → NextInRange s is → AllSound s (heart_beat_all s is)
unfolding heart_beat_all
heart_beat_all-AllSound s [] h r = tt
heart_beat_all-AllSound s (i ∷ is) h ((n, got, hi), r) =
    ground (arith, heart_beat_to-Sound s i n h got hi, heart_beat_all-AllSound s is h r)

-- A heartbeat of a node with a well-formed log that knows a next index of each other node, none
-- more than one past its log's end, never reads outside the deque, and every message it sends holds
-- the whole log behind `prev_log_index`, in order, with the term of the entry there.
heart_beat-AllSound :
    (now : ℕ) (s : Node) → HasLog s → NextInRange s (peers s) → AllSound s (heart_beat now s).1
unfolding heart_beat
heart_beat-AllSound now s h r = ground (arith, heart_beat_all-AllSound s (peers s) h r)

module _ ⦃c : Codec⦄ where
  -- Replication: if a follower answers success to a heartbeat's message, then from
  -- `prev_log_index` to the end of the leader's log both logs hold the same entries.
  pub heart_beat_replicates :
      (s t : Node) (i n k now : ℕ) (args : AppendEntriesArgs) (reply a : AppendEntriesReply)
      → HasLog s
      → HasLog t
      → get_elem? s.next_index i ≡ some n
      → n ≤ suc (s.last_snapshot_index + length s.logs)
      → heart_beat_to s i ≡ done (send_entries_to k args)
      → (append_entries now args reply t).1 ≡ done a
      → a.success ≡ true
      → (j : ℕ) → args.prev_log_index < j
      → j ≤ s.last_snapshot_index + length s.logs
      → log_at (append_entries now args reply t).0 j ≡ log_at s j
  heart_beat_replicates s t i n k now args reply a hs ht got hi sent e ok j lo up =
      let m = subst (Sound s) sent (heart_beat_to-Sound s i n hs got hi) in
      let (x, at, index) = log_at-some s j hs (omega (arith, m.prev_at_snapshot)) up in
      let r = append_entries_success now args reply t a ht m.chained e ok in
      let here =
        ap (λ (es : List LogEntry). get_elem? es (j - args.prev_log_index - 1))
          (heart_beat_to-entries s i k args sent)
        ∙ entries-log_at s args.prev_log_index j x hs m.prev_at_snapshot lo at in
      let after = log_at (append_entries now args reply t).0 in
      ap after {x = j} {y = x.index} (sym index)
      ∙ All-get_elem? (λ e. after e.index ≡ some e) args.entries (j - args.prev_log_index - 1) x
          r.taken here
      ∙ sym at
