-- ===== src/Raft/Apply/Deliver.antt =====
-- _M_getApplyMessages hands the committed entries to the application, each once and in order.
use raft_kvstorage.Common.{
  ℕ, zero, suc, ◌+◌, ◌-◌, ◌≤◌, ◌<◌, ◌≡◌, refl, List, [], ◌∷◌, some, length, ap, arith,
}
use raft_kvstorage.Raft.Message.{LogEntry}
use raft_kvstorage.Raft.Node.{Node, done, log_at}
use raft_kvstorage.Raft.Log.{IsWf, last_log_index_lem}
use raft_kvstorage.Raft.Log.Lookup.{log_at-some}
use raft_kvstorage.Raft.Append.Round.{HasLog}
use raft_kvstorage.Raft.Apply.{ApplyMessage, command_message, messages_from, get_apply_messages}

-- The messages carry the commands of the entries at `i`, `i + 1`, and so on.
abbrev pub Delivers : Node → ℕ → List ApplyMessage → Type 0
Delivers s i [] = Unit {0}
Delivers s i (m ∷ ms) =
    ((e : LogEntry) × (log_at s i ≡ some e) × (m ≡ command_message i e.command))
    × Delivers s (suc i) ms

messages_from-Delivers :
    (s : Node) (i n : ℕ)
    → HasLog s
    → s.last_snapshot_index < i
    → i + n ≤ suc (s.last_snapshot_index + length s.logs)
    → (ms : List ApplyMessage) × (messages_from s i n ≡ done ms) × (length ms ≡ n) × Delivers s i ms
unfolding messages_from
messages_from-Delivers s i zero h lo hi = ([], refl, refl, tt)
messages_from-Delivers s i (suc n) h lo hi =
    let (e, got, _) = log_at-some s i h lo (omega arith) in
    let (ms, rest, len, d) = messages_from-Delivers s (suc i) n h (omega arith) (omega arith) in
    (
      command_message i e.command ∷ ms,
      rw (got, rest, messages_from),
      ap suc len,
      ((e, got, refl), d),
    )

-- On a well-formed log no check fails and no slot outside the deque is read: the messages are
-- those of the entries from the first unapplied to the last committed one, in order, and
-- afterwards all that is committed counts as applied.
pub get_apply_messages-Delivers :
    (s : Node)
    → IsWf s
    → (ms : List ApplyMessage) × (get_apply_messages s
        ≡ (record s { applied_index = s.commit_index }, done ms))
      × (s.applied_index + length ms ≡ s.commit_index)
      × Delivers s (suc s.applied_index) ms
unfolding get_apply_messages
get_apply_messages-Delivers s w =
    let (ms, got, len, d) =
      messages_from-Delivers s (suc s.applied_index) (s.commit_index - s.applied_index) w.contiguous
        (omega (arith, w.snapshot_applied))
        (omega (arith, w.applied_committed, w.committed_present)) in
    (ms, ground (arith, last_log_index_lem s w.contiguous), omega arith, d)
