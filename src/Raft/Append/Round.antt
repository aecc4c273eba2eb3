-- ===== src/Raft/Append/Round.antt =====
-- One round of the loop over the entries in _L_appendEntries.
use raft_kvstorage.Common.{
  ℕ, suc, ◌+◌, ◌-◌, ◌≤◌, ◌<◌, ◌≡◌, ◌≢◌, refl, [], ◌∷◌, ◌++◌, some, length, get_elem?, set,
  length-append, length-set, get_elem?-append_other, get_elem?-append_end, get_elem?-set_self,
  get_elem?-set_ne, get_elem?-some, bytes_eq_iff, arith,
}
use raft_kvstorage.Raft.Message.{LogEntry}
use raft_kvstorage.Raft.Node.{Node, log_at, slices_index}
use raft_kvstorage.Raft.Log.{
  Contiguous, Contiguous-append, Contiguous-set, Contiguous-index, last_log_index_lem,
}
use raft_kvstorage.Raft.Append.{Loop, finished, failed, out_of_range, put_entry, append_entry}

abbrev pub HasLog : Node → Type 0
HasLog s = Contiguous (suc s.last_snapshot_index) s.logs

-- A round that finds its entry's place.
abbrev pub InLoop : (Node → Type 0) → (Node → Type 0) → Loop → Type 0
InLoop P Q (finished t) = P t
InLoop P Q (failed t) = Q t
InLoop P Q out_of_range = ⊥

-- From `s` to `t` the log stays where it is and does not shrink.
pub record Grows (s t : Node) : Type 0 where
  pub same : t ≡ record s { logs = t.logs }
  pub has_log : HasLog t
  pub longer : length s.logs ≤ length t.logs

-- `t` has `e` in its log, and is as `s` at every other index.
pub record Takes (e : LogEntry) (s t : Node) : Type 0 where
  pub grows : Grows s t
  pub covered : e.index ≤ t.last_snapshot_index + length t.logs
  pub taken : log_at t e.index ≡ some e
  pub others : (j : ℕ) → j ≢ e.index → log_at t j ≡ log_at s j

LogEntry-eq : (a b : LogEntry) → a.command ≡ b.command → a.term ≡ b.term → a.index ≡ b.index → a ≡ b
LogEntry-eq a b p q r = ground arith

append-Takes :
    (e : LogEntry) (s : Node)
    → HasLog s
    → e.index ≡ suc (s.last_snapshot_index + length s.logs)
    → Takes e s (record s { logs = s.logs ++ e ∷ [] })
unfolding log_at slices_index
append-Takes e s h q = record {
  grows = record {
    same = refl;
    has_log = Contiguous-append _ s.logs e h (omega arith);
    longer = omega (arith, length-append s.logs (e ∷ []));
  };
  covered = omega (arith, length-append s.logs (e ∷ []));
  taken = ground (arith, get_elem?-append_end s.logs e, slot);
  others = λ j ne. ground (arith, get_elem?-append_other s.logs e (j - s.last_snapshot_index - 1));
}
  where
    slot : e.index - s.last_snapshot_index - 1 ≡ length s.logs
    slot = omega arith

set-Takes :
    (i : ℕ) (e : LogEntry) (s : Node)
    → HasLog s
    → e.index ≡ suc (s.last_snapshot_index + i)
    → i < length s.logs
    → Takes e s (record s { logs = set s.logs i e })
unfolding log_at slices_index
set-Takes i e s h q lt = record {
  grows = record {
    same = refl;
    has_log = Contiguous-set _ s.logs i e h (omega arith);
    longer = omega (arith, length-set s.logs i e);
  };
  covered = omega (arith, length-set s.logs i e);
  taken = ground (arith, get_elem?-set_self s.logs i e lt, slot);
  others =
      λ j ne. ground (arith, get_elem?-set_ne s.logs {i = i} {j = j - s.last_snapshot_index - 1} e);
}
  where
    slot : e.index - s.last_snapshot_index - 1 ≡ i
    slot = omega arith

-- Where the slot holds an entry of the same term and command, that is the entry itself.
keep-Takes :
    (i : ℕ) (e old : LogEntry) (s : Node)
    → HasLog s
    → e.index ≡ suc (s.last_snapshot_index + i)
    → i < length s.logs
    → get_elem? s.logs i ≡ some old
    → old.term ≡ e.term
    → old.command ≡ e.command
    → Takes e s s
unfolding log_at slices_index
keep-Takes i e old s h q lt got p r = record {
  grows = record { same = refl; has_log = h; longer = omega arith };
  covered = omega arith;
  taken = ground (arith, slot, LogEntry-eq old e r p same_index);
  others = λ j ne. refl;
}
  where
    slot : e.index - s.last_snapshot_index - 1 ≡ i
    slot = omega arith

    same_index : old.index ≡ e.index
    same_index = omega (arith, Contiguous-index _ s.logs i old h got)

put_entry-Takes :
    (i : ℕ) (e : LogEntry) (s : Node)
    → HasLog s
    → e.index ≡ suc (s.last_snapshot_index + i)
    → i < length s.logs
    → InLoop (Takes e s) (λ t. t ≡ s) (put_entry i e s)
unfolding put_entry
put_entry-Takes i e s h q lt =
    let (old, got) = get_elem?-some s.logs i lt in
    rw (got, put_entry)
      (ground (
        arith,
        set-Takes i e s h q lt,
        keep-Takes i e old s h q lt got,
        bytes_eq_iff old.command e.command,
      ))

-- An entry that follows on the snapshot and is no more than one past the log's end is taken over:
-- the round reads no slot outside the deque, and where it throws, it has changed nothing.
pub append_entry-Takes :
    (e : LogEntry) (s : Node)
    → HasLog s
    → s.last_snapshot_index < e.index
    → e.index ≤ suc (s.last_snapshot_index + length s.logs)
    → InLoop (Takes e s) (λ t. t ≡ s) (append_entry e s)
unfolding append_entry slices_index
append_entry-Takes e s h lo hi = ground (
  arith,
  last_log_index_lem s h,
  append-Takes e s h,
  put_entry-Takes (e.index - s.last_snapshot_index - 1) e s h,
)
