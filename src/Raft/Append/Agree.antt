-- ===== src/Raft/Append/Agree.antt =====
-- The loop over the entries in _L_appendEntries: the follower's log agrees with the leader's.
use raft_kvstorage.Common.{
  ℕ, suc, ◌+◌, ◌≤◌, ◌<◌, ◌≡◌, refl, ◌∙◌, ◌⊎◌, inl, List, [], ◌∷◌, some, length, All, arith, ap,
}
use raft_kvstorage.Raft.Message.{LogEntry}
use raft_kvstorage.Raft.Node.{Node, log_at}
use raft_kvstorage.Raft.Log.{Contiguous}
use raft_kvstorage.Raft.Append.{Loop, finished, failed, out_of_range, append_entry, append_loop}
use raft_kvstorage.Raft.Append.Round.{HasLog, InLoop, Grows, Takes, append_entry-Takes}

-- `t` has the entries `es`, which follow on index `prev`, and is as `s` at all other indices.
pub record Merges (prev : ℕ) (es : List LogEntry) (s t : Node) : Type 0 where
  pub grows : Grows s t
  pub covered : prev + length es ≤ t.last_snapshot_index + length t.logs
  pub taken : All (λ e. log_at t e.index ≡ some e) es
  pub others : (j : ℕ) → (j ≤ prev) ⊎ (prev + length es < j) → log_at t j ≡ log_at s j

Grows-trans : (s t u : Node) → Grows s t → Grows t u → Grows s u
Grows-trans s t u g k = record {
  same = ground (arith, g.same, k.same);
  has_log = k.has_log;
  longer = omega (arith, g.longer, k.longer);
}

Grows-snapshot : (s t : Node) → Grows s t → t.last_snapshot_index ≡ s.last_snapshot_index
Grows-snapshot s t g = ap (λ n. n.last_snapshot_index) g.same

Merges-cons :
    (prev : ℕ) (e : LogEntry) (es : List LogEntry) (s t u : Node)
    → e.index ≡ suc prev
    → Takes e s t
    → Merges (suc prev) es t u
    → Merges prev (e ∷ es) s u
Merges-cons prev e es s t u q k m = record {
  grows = Grows-trans s t u k.grows m.grows;
  covered = omega (arith, m.covered);
  taken = (m.others e.index (inl (omega arith)) ∙ k.taken, m.taken);
  others = λ j out. m.others j (ground arith) ∙ k.others j (ground arith);
}

-- The loop over consecutive entries that overlap the log or follow on it never reads outside the
-- deque. If it ends, the log has all the entries, and is unchanged elsewhere.
pub append_loop-Merges :
    (es : List LogEntry) (prev : ℕ) (s : Node)
    → HasLog s
    → s.last_snapshot_index ≤ prev
    → prev ≤ s.last_snapshot_index + length s.logs
    → Contiguous (suc prev) es
    → InLoop (Merges prev es s) (Grows s) (append_loop es s)
unfolding append_loop
append_loop-Merges [] prev s h lo hi c = record {
  grows = record { same = refl; has_log = h; longer = omega arith };
  covered = omega arith;
  taken = tt;
  others = λ j _. refl;
}
append_loop-Merges (e ∷ es) prev s h lo hi c =
    go (append_entry e s) (append_entry-Takes e s h (omega arith) (omega arith))
      (λ t. append_loop-Merges es (suc prev) t)
  where
    go :
        (r : Loop)
        → InLoop (Takes e s) (λ t. t ≡ s) r
        → ((t : Node)
            → HasLog t
            → t.last_snapshot_index ≤ suc prev
            → suc prev ≤ t.last_snapshot_index + length t.logs
            → Contiguous (suc (suc prev)) es
            → InLoop (Merges (suc prev) es t) (Grows t) (append_loop es t))
        → InLoop (Merges prev (e ∷ es) s) (Grows s) (elim r [
          | finished t ↦ append_loop es t
          | failed t ↦ failed t
          | out_of_range ↦ out_of_range
        ])
    go (finished t) k ih = combine (append_loop es t) (
        ih t k.grows.has_log (omega (arith, Grows-snapshot s t k.grows)) (omega (arith, k.covered))
          c.1)
      where
        combine :
            (r : Loop)
            → InLoop (Merges (suc prev) es t) (Grows t) r
            → InLoop (Merges prev (e ∷ es) s) (Grows s) r
        combine (finished u) m = Merges-cons prev e es s t u c.0 k m
        combine (failed u) g = Grows-trans s t u k.grows g
        combine out_of_range b = b
    go (failed t) k ih = ground (arith, h)
    go out_of_range k ih = k
