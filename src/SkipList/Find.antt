-- ===== src/SkipList/Find.antt =====
-- `find` and `dump` against the list of nodes.
use raft_kvstorage.Common.{
  ℕ, zero, suc, ◌<◌, ◌≤◌, ◌≡◌, refl, sym, ◌∙◌, true, inl, inr, Bool-cases, List, [], ◌∷◌, none,
  some, Bytes, bytes_eq_iff, length, map, arith,
}
use raft_kvstorage.Table.{bytes_eq_other}
use raft_kvstorage.SkipList.{
  SkipNode, SkipList, bytes_lt, head, advance, descend, node_after, find, walk, contents,
}
use raft_kvstorage.SkipList.Order.{bytes_lt_antisym, bytes_lt_other, bytes_lt_trans}
use raft_kvstorage.SkipList.Chain.{next_at, IsLinked, AllAbove, IsSorted, IsSkipList}
use raft_kvstorage.SkipList.Search.{node_with, IsPlace, Stops, advance_lem}

-- From level `l` down to 0.
descend_lem :
    (fuel l : ℕ) (heap : ℕ → SkipNode) (k : Bytes) (a : ℕ) (xs : List ℕ)
    → length xs ≤ fuel
    → IsLinked heap a xs
    → IsSorted heap xs
    → l < (heap a).level
    → (ys : List ℕ) × IsPlace heap k xs 0 (descend fuel heap k (suc l) a) ys × Stops heap k 0 ys
unfolding descend
descend_lem fuel zero heap k a xs le n s h =
    let (ys, p, stops, _) = advance_lem fuel heap k 0 a xs le n s h in (ys, p, stops)
descend_lem fuel (suc l) heap k a xs le n s h =
    let (ys, p, _, _) = advance_lem fuel heap k (suc l) a xs le n s h in
    let (zs, q, stops) =
      descend_lem fuel l heap k (advance fuel heap k (suc l) a) ys (omega (arith, le, p.short))
        p.linked p.sorted (omega (arith, p.high)) in
    (
      zs,
      record {
        linked = q.linked;
        sorted = q.sorted;
        high = q.high;
        same = q.same ∙ p.same;
        short = omega (arith, p.short, q.short);
      },
      stops,
    )

-- No node has a key that is smaller than all of theirs.
pub none_above :
    (heap : ℕ → SkipNode) (k k' : Bytes) (xs : List ℕ)
    → AllAbove heap k' xs
    → bytes_lt k k' ≡ true
    → node_with heap k xs ≡ none
none_above heap k k' [] h lt = refl
none_above heap k k' (a ∷ xs) h lt =
    let below = bytes_lt_trans k k' (heap a).key lt h.0 in
    let other = bytes_eq_other (heap a).key k λ e. bytes_lt_other k (heap a).key below (sym e) in
    ground (arith, other, none_above heap k k' xs h.1 lt)

node_after_lem :
    (heap : ℕ → SkipNode) (k : Bytes) (b : ℕ) (ys : List ℕ)
    → IsLinked heap b ys
    → IsSorted heap ys
    → 0 < (heap b).level
    → Stops heap k 0 ys
    → node_after heap k b ≡ node_with heap k ys
unfolding node_after
node_after_lem heap k b [] n s h stops = ground (arith, n 0 h)
node_after_lem heap k b (a ∷ ys) n s h stops =
    let first : next_at heap 0 (a ∷ ys) ≡ some a = ground (arith, n.1) in
    let leads = n.0 0 h ∙ first in
    let low = stops a first in
    elim (Bool-cases (bytes_lt k (heap a).key)) [
      | inl lt ↦
          let gone = none_above heap k (heap a).key ys s.0 lt in
          let other =
            bytes_eq_other (heap a).key k (λ e. bytes_lt_other k (heap a).key lt (sym e)) in
          ground (arith, leads, lt, gone, other)
      | inr ge ↦
          let same = (bytes_eq_iff (heap a).key k).1 (bytes_lt_antisym (heap a).key k low ge) in
          ground (arith, leads, ge, same)
    ]

found_from :
    (n fuel : ℕ) (heap : ℕ → SkipNode) (k : Bytes) (a : ℕ) (xs : List ℕ)
    → 0 < n
    → n ≤ (heap a).level
    → length xs ≤ fuel
    → IsLinked heap a xs
    → IsSorted heap xs
    → node_after heap k (descend fuel heap k n a) ≡ node_with heap k xs
found_from zero fuel heap k a xs lt h le n s = absurd (omega arith)
found_from (suc l) fuel heap k a xs lt h le n s =
    let (ys, p, stops) = descend_lem fuel l heap k a xs le n s h in
    node_after_lem heap k (descend fuel heap k (suc l) a) ys p.linked p.sorted p.high stops ∙ p.same

-- `find` comes back with the node that has the key, or with the end where no node has it. Its
-- loops take at most as many rounds as there are nodes.
pub find_lem :
    (k : Bytes) (s : SkipList) (xs : List ℕ) → IsSkipList s xs → find k s ≡ node_with s.heap k xs
unfolding find
find_lem k s xs i =
    found_from s.level_now s.counter s.heap k head xs i.bottom (omega (arith, i.top, i.head_level))
      (omega (arith, i.counted)) i.linked i.sorted

walk_lem :
    (fuel : ℕ) (heap : ℕ → SkipNode) (a : ℕ) (xs : List ℕ)
    → IsLinked heap a xs
    → 0 < (heap a).level
    → fuel ≡ length xs
    → walk fuel heap ((heap a).forward 0) ≡ map (λ x. ((heap x).key, (heap x).value)) xs
unfolding walk
walk_lem zero heap a [] n h e = refl
walk_lem zero heap a (b ∷ xs) n h e = absurd (omega (arith, e))
walk_lem (suc fuel) heap a [] n h e = absurd (omega (arith, e))
walk_lem (suc fuel) heap a (b ∷ xs) n h e =
    ground (arith, n.0 0 h, n.1, walk_lem fuel heap b xs n.2 n.1 (omega (arith, e)))

-- `dump` writes every key with its value once, in the order of the keys.
pub contents_lem :
    (s : SkipList) (xs : List ℕ)
    → IsSkipList s xs
    → contents s ≡ map (λ x. ((s.heap x).key, (s.heap x).value)) xs
unfolding contents
contents_lem s xs i =
    walk_lem s.counter s.heap head xs i.linked (omega (arith, i.head_level)) i.counted
