-- ===== src/Raft/Snapshot/View.antt =====
-- A snapshot takes entries out of the log without changing what the rest of it says.
use raft_kvstorage.Common.{
  ℕ, ◌+◌, ◌-◌, ◌≤◌, ◌<◌, ◌≡◌, refl, ◌∙◌, ap, true, false, none, some, Bytes, length, arith,
  get_elem?-drop, get_elem?-none, drop, drop-all, ◌⊎◌,
}
use raft_kvstorage.Raft.Message.{LogEntry, InstallSnapshotArgs, InstallSnapshotReply}
use raft_kvstorage.Raft.Node.{
  Node, Codec, done, log_at, log_term, slices_index, last_log_index, identity_change,
}
use raft_kvstorage.Raft.Log.{IsWf, last_log_index_lem}
use raft_kvstorage.Raft.Log.Lookup.{log_at-some}
use raft_kvstorage.Raft.Append.{follow}
use raft_kvstorage.Raft.Append.Round.{HasLog}
use raft_kvstorage.Raft.Append.Reply.{log_at-follow}
use raft_kvstorage.Raft.Snapshot.{
  cut_log, drop_until, persist, persist_with, install_snapshot, adopt_snapshot, keep_log,
}

-- Dropping a prefix moves no later entry.
log_at-drop :
    (s t : Node) (j : ℕ)
    → s.last_snapshot_index < t.last_snapshot_index
    → t.logs ≡ drop (t.last_snapshot_index - s.last_snapshot_index - 1 + 1) s.logs
    → t.last_snapshot_index < j
    → log_at t j ≡ log_at s j
unfolding log_at slices_index
log_at-drop s t j lt e above = ground (
  arith,
  get_elem?-drop (t.last_snapshot_index - s.last_snapshot_index - 1 + 1) s.logs
      (j - t.last_snapshot_index - 1),
)

-- Behind the log's end nothing is read.
log_at-none : (s : Node) (j : ℕ) → s.last_snapshot_index + length s.logs < j → log_at s j ≡ none
unfolding log_at slices_index
log_at-none s j h = ground (arith, get_elem?-none s.logs (j - s.last_snapshot_index - 1))

-- `t` is `s` with its log cut behind `index`: the term of the entry there is kept, and so is every
-- later entry.
pub record Compacts (index : ℕ) (s t : Node) : Type 0 where
  pub at : t.last_snapshot_index ≡ index
  pub term_kept : log_term t index ≡ log_term s index
  pub rest_kept : (j : ℕ) → index < j → log_at t j ≡ log_at s j
  pub applied : index ≤ t.applied_index

cut_log-logs :
    (index term : ℕ) (s : Node)
    → s.last_snapshot_index < index
    → 0 < length s.logs
    → (cut_log index term s).logs ≡ drop (index - s.last_snapshot_index - 1 + 1) s.logs
unfolding cut_log drop_until
cut_log-logs index term s lt ne =
    ground (arith, drop-all (index - s.last_snapshot_index - 1 + 1) s.logs)

log_at-cut_log :
    (index term : ℕ) (s : Node) (j : ℕ)
    → s.last_snapshot_index < index
    → 0 < length s.logs
    → index < j
    → log_at (cut_log index term s) j ≡ log_at s j
log_at-cut_log index term s j lo ne above =
    log_at-drop s (cut_log index term s) j (unfold cut_log in lo)
      (unfold cut_log in cut_log-logs index term s lo ne) (unfold cut_log in above)

log_term-cut_log :
    (index : ℕ) (s : Node) (e : LogEntry)
    → HasLog s
    → s.last_snapshot_index < index
    → index ≤ s.last_snapshot_index + length s.logs
    → log_at s index ≡ some e
    → log_term (cut_log index e.term s) index ≡ log_term s index
unfolding log_term cut_log
log_term-cut_log index s e h lo hi got = ground (arith, last_log_index_lem s h)

module _ ⦃c : Codec⦄ where
  log_at-persist_with : (shot : Bytes) (s : Node) → log_at (persist_with shot s) ≡ log_at s
  unfolding log_at slices_index persist_with
  log_at-persist_with shot s = refl

  log_term-persist_with : (shot : Bytes) (s : Node) → log_term (persist_with shot s) ≡ log_term s
  unfolding log_term last_log_index log_at slices_index persist_with
  log_term-persist_with shot s = refl

  -- What `persist` does with an index that it takes.
  persist_taken :
      (index : ℕ) (shot : Bytes) (s : Node) (e : LogEntry)
      → s.last_snapshot_index < index
      → index ≤ s.commit_index
      → log_at s index ≡ some e
      → persist index shot s ≡ (persist_with shot (cut_log index e.term s), done true)
  unfolding persist
  persist_taken index shot s e lo hi got = ground arith

  cut_log-Compacts :
      (index : ℕ) (shot : Bytes) (s : Node) (e : LogEntry)
      → IsWf s
      → s.last_snapshot_index < index
      → index ≤ s.commit_index
      → log_at s index ≡ some e
      → Compacts index s (persist_with shot (cut_log index e.term s))
  cut_log-Compacts index shot s e w lo hi got = record {
    at = unfold cut_log persist_with in refl;
    term_kept = rw (
      log_term-persist_with shot (cut_log index e.term s),
      log_term-cut_log index s e w.contiguous lo (omega arith) got,
    );
    rest_kept = λ j above.
        rw (log_at-persist_with shot (cut_log index e.term s))
          (log_at-cut_log index e.term s j lo (omega arith) above);
    applied = unfold cut_log persist_with in ground arith;
  }

  -- A snapshot of the application up to a committed index that no snapshot covers yet is taken: the
  -- log is cut there, the term at the cut and all later entries read as before, and the snapshot
  -- is what the node hands to its persister.
  pub persist-Compacts :
      (index : ℕ) (shot : Bytes) (s : Node)
      → IsWf s
      → s.last_snapshot_index < index
      → index ≤ s.commit_index
      → let t = (persist index shot s).0 in
        ((persist index shot s).1 ≡ done true)
        × Compacts index s t
        × (s.disk.opens ≡ true → t.disk.snapshot_file ≡ shot)
  unfolding persist
  persist-Compacts index shot s w lo hi =
      let (e, got, _) = log_at-some s index w.contiguous lo (omega (arith, w.committed_present)) in
      rw (persist_taken index shot s e lo hi got) (
        refl,
        cut_log-Compacts index shot s e w lo hi got,
        unfold cut_log persist_with in λ o. ground arith,
      )

  -- Any other index is refused, and changes nothing.
  persist_refused :
      (index : ℕ) (shot : Bytes) (s : Node)
      → (index ≤ s.last_snapshot_index) ⊎ (s.commit_index < index)
      → persist index shot s ≡ (s, done false)
  unfolding persist
  persist_refused index shot s out = ground arith

  adopt_snapshot-log_at :
      (args : InstallSnapshotArgs) (s : Node) (j : ℕ)
      → HasLog s
      → s.last_snapshot_index < args.last_index
      → args.last_index < j
      → log_at (adopt_snapshot args s) j ≡ log_at s j
  unfolding adopt_snapshot keep_log drop_until log_at slices_index
  adopt_snapshot-log_at args s j h lo above = ground (
    arith,
    last_log_index_lem s h,
    get_elem?-none s.logs (j - s.last_snapshot_index - 1),
    get_elem?-drop (args.last_index - s.last_snapshot_index - 1 + 1) s.logs
        (j - args.last_index - 1),
  )

  follow_lem :
      (now term : ℕ) (s : Node)
      → s.term ≤ term
      → let t = follow now term s in
        (t.term ≡ term) × (t.last_snapshot_index ≡ s.last_snapshot_index) × (t.logs ≡ s.logs)
  unfolding follow identity_change
  follow_lem now term s h = ground arith

  install_snapshot_taken :
      (now : ℕ) (args : InstallSnapshotArgs) (reply : InstallSnapshotReply) (s : Node)
      → s.term ≤ args.term
      → s.last_snapshot_index < args.last_index
      → let t = follow now args.term s in
        install_snapshot now args reply s
        ≡ (persist_with args.content (adopt_snapshot args t), record { term = t.term }, some args)
  unfolding install_snapshot
  install_snapshot_taken now args reply s cur lo = ground (arith, follow_lem now args.term s cur)

  -- A snapshot of a leader whose term is not behind, and which is newer than the node's own, is
  -- taken over: the log starts behind it, later entries read as before, and its arguments go to the
  -- application.
  pub install_snapshot_lem :
      (now : ℕ) (args : InstallSnapshotArgs) (reply : InstallSnapshotReply) (s : Node)
      → HasLog s
      → s.term ≤ args.term
      → s.last_snapshot_index < args.last_index
      → let t = (install_snapshot now args reply s).0 in
        (t.last_snapshot_index ≡ args.last_index)
        × (t.last_snapshot_term ≡ args.last_term)
        × (t.term ≡ args.term)
        × ((j : ℕ) → args.last_index < j → log_at t j ≡ log_at s j)
        × ((install_snapshot now args reply s).2 ≡ some args)
  install_snapshot_lem now args reply s h cur lo =
      let t = follow now args.term s in
      let (of_term, at, same) = follow_lem now args.term s cur in
      rw (install_snapshot_taken now args reply s cur lo) (
        unfold adopt_snapshot persist_with in refl,
        unfold adopt_snapshot persist_with in refl,
        unfold adopt_snapshot persist_with in of_term,
        (λ j above. rw (log_at-persist_with args.content (adopt_snapshot args t)) (
            adopt_snapshot-log_at args t j (rw (at, same) h) (rw at lo) above
            ∙ ap (λ read. read j) (log_at-follow now args.term s))),
        refl,
      )
