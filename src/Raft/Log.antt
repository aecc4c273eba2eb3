-- ===== src/Raft/Log.antt =====
-- The log of a node as raft.h means it: consecutive indices behind the last snapshot, of which the
-- applied ones are committed and the committed ones are present.
pub mod Lookup
use raft_kvstorage.Common.{
  ℕ, zero, suc, ◌+◌, ◌-◌, ◌≤◌, ◌<◌, ◌≡◌, refl, List, [], ◌∷◌, ◌++◌, Option, none, some, length,
  get_elem?, last?, set, drop, arith, ap,
}
use raft_kvstorage.Raft.Message.{LogEntry, AppendEntriesArgs}
use raft_kvstorage.Raft.Node.{Node, last_log_index, last_log_term, log_at, slices_index}

-- The entries have the indices `b`, `b + 1`, and so on.
abbrev pub Contiguous : ℕ → List LogEntry → Type 0
Contiguous b [] = Unit {0}
Contiguous b (e ∷ es) = (e.index ≡ b) × Contiguous (suc b) es

pub record IsWf (s : Node) : Type 0 where
  pub contiguous : Contiguous (suc s.last_snapshot_index) s.logs
  pub snapshot_applied : s.last_snapshot_index ≤ s.applied_index
  pub applied_committed : s.applied_index ≤ s.commit_index
  pub committed_present : s.commit_index ≤ s.last_snapshot_index + length s.logs

-- A leader's message whose entries follow on `prev_log_index`.
abbrev pub IsChained : AppendEntriesArgs → Type 0
IsChained args = Contiguous (suc args.prev_log_index) args.entries

pub Contiguous-append :
    (b : ℕ) (xs : List LogEntry) (e : LogEntry)
    → Contiguous b xs
    → e.index ≡ b + length xs
    → Contiguous b (xs ++ e ∷ [])
Contiguous-append b [] e h q = omega arith
Contiguous-append b (x ∷ xs) e h q = (h.0, Contiguous-append (suc b) xs e h.1 (omega arith))

pub Contiguous-set :
    (b : ℕ) (xs : List LogEntry) (i : ℕ) (e : LogEntry)
    → Contiguous b xs
    → e.index ≡ b + i
    → Contiguous b (set xs i e)
Contiguous-set b [] i e h q = tt
Contiguous-set b (x ∷ xs) zero e h q = (omega arith, h.1)
Contiguous-set b (x ∷ xs) (suc i) e h q = (h.0, Contiguous-set (suc b) xs i e h.1 (omega arith))

pub Contiguous-drop :
    (b n : ℕ) (xs : List LogEntry) {a : ℕ} → a ≡ b + n → Contiguous b xs → Contiguous a (drop n xs)
Contiguous-drop b zero xs e h = ground (arith, h)
Contiguous-drop b (suc n) [] e h = tt
Contiguous-drop b (suc n) (x ∷ xs) e h = Contiguous-drop (suc b) n xs (omega arith) h.1

pub Contiguous-index :
    (b : ℕ) (xs : List LogEntry) (i : ℕ) (e : LogEntry)
    → Contiguous b xs
    → get_elem? xs i ≡ some e
    → e.index ≡ b + i
Contiguous-index b [] i e h q = cc
Contiguous-index b (x ∷ xs) zero e h q = ground arith
Contiguous-index b (x ∷ xs) (suc i) e h q = omega (arith, Contiguous-index (suc b) xs i e h.1 q)

last?-index :
    (b : ℕ) (x : LogEntry) (xs : List LogEntry)
    → Contiguous b (x ∷ xs)
    → (e : LogEntry) × (last? (x ∷ xs) ≡ some e) × (e.index ≡ b + length xs)
last?-index b x [] h = (x, refl, omega arith)
last?-index b x (y ∷ ys) h = let (e, p, q) = last?-index (suc b) y ys h.1 in (e, p, omega arith)

last_index_lem :
    (b : ℕ) (xs : List LogEntry) (o : Option LogEntry)
    → last? xs ≡ o
    → Contiguous (suc b) xs
    → elim o [ none ↦ b | some e ↦ e.index ] ≡ b + length xs
last_index_lem b [] none p h = omega arith
last_index_lem b [] (some e) p h = cc
last_index_lem b (x ∷ xs) none p h = ground (arith, last?-index (suc b) x xs h)
last_index_lem b (x ∷ xs) (some e) p h = ground (arith, last?-index (suc b) x xs h)

-- The index of the newest entry, from the number of entries.
pub last_log_index_lem :
    (s : Node)
    → Contiguous (suc s.last_snapshot_index) s.logs
    → last_log_index s ≡ s.last_snapshot_index + length s.logs
unfolding last_log_index
last_log_index_lem s h = last_index_lem s.last_snapshot_index s.logs (last? s.logs) refl h
