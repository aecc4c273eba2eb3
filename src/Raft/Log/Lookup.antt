-- ===== src/Raft/Log/Lookup.antt =====
-- Reading a log by index.
use raft_kvstorage.Common.{ℕ, suc, ◌+◌, ◌-◌, ◌≤◌, ◌<◌, ◌≡◌, some, length, get_elem?-some, arith}
use raft_kvstorage.Raft.Message.{LogEntry}
use raft_kvstorage.Raft.Node.{Node, log_at, slices_index}
use raft_kvstorage.Raft.Log.{Contiguous, Contiguous-index}

-- Inside the log every index has its entry.
pub log_at-some :
    (s : Node) (i : ℕ)
    → Contiguous (suc s.last_snapshot_index) s.logs
    → s.last_snapshot_index < i
    → i ≤ s.last_snapshot_index + length s.logs
    → (e : LogEntry) × (log_at s i ≡ some e) × (e.index ≡ i)
unfolding log_at slices_index
log_at-some s i h lo hi =
    let (e, p) = get_elem?-some s.logs (i - s.last_snapshot_index - 1) (omega arith) in
    (e, ground arith, omega (arith, Contiguous-index _ s.logs _ e h p))
