-- ===== src/SkipList/Insert.antt =====
-- `insert` and `operator[]` keep the shape of the list.
use raft_kvstorage.Common.{
  ℕ, ◌<◌, ◌≤◌, ◌≡◌, refl, sym, ap, ◌∙◌, subst, inl, inr, Bool-cases, Option-cases, List, ◌∷◌, ◌++◌,
  none, some, Bytes, bytes_eq, bytes_eq_iff, ltb, leb, if◌then◌else◌, arith,
}
use raft_kvstorage.SkipList.{
  SkipNode, SkipList, max_level, head, find_precursors, node_after, insert_node, insert, read_value,
}
use raft_kvstorage.Table.{or_else, bytes_eq_self}
use raft_kvstorage.SkipList.Chain.{last_at, low, rest, IsSkipList}
use raft_kvstorage.SkipList.Search.{node_with}
use raft_kvstorage.SkipList.Find.{find_lem}
use raft_kvstorage.SkipList.Precursors.{last_at-AllMade, find_precursors_lem, find-precursors}
use raft_kvstorage.SkipList.Insertion.{
  old, new, head_old, made-IsLinked, made-IsSorted, made-AllMade, made_length, made_node_with,
  made_value, old_forward, pre_old,
}

node_after-forward :
    (heap : ℕ → SkipNode) (k : Bytes) (c a : ℕ)
    → node_after heap k c ≡ some a
    → (heap c).forward 0 ≡ some a
unfolding node_after
node_after-forward heap k c a e = ground (arith, e)

module _ (n : ℕ) (k v : Bytes) (s : SkipList) (xs : List ℕ) (i : IsSkipList s xs) (pos : 0 < n)
    (bound : n ≤ max_level) where
  -- The cells that `_M_insert` links behind.
  abbrev cells : ℕ → ℕ
  cells =
      if ltb s.level_now n
      then (λ l. if leb s.level_now l then head else find_precursors k s l)
      else find_precursors k s

  cells_lem : (j : ℕ) → cells j ≡ last_at s.heap j head (low s.heap k xs)
  cells_lem j = elim (Bool-cases (ltb s.level_now n)) [
    | inl grows ↦ ground (
      arith,
      grows,
      find_precursors_lem k s xs i j,
      last_at-AllMade s.heap s.fresh s.level_now j head k xs i.made,
    )
    | inr fits ↦ ground (arith, fits, find_precursors_lem k s xs i j)
  ]

  -- The nodes after the insertion of a key that is not there.
  abbrev spliced : List ℕ
  spliced = low s.heap k xs ++ s.fresh ∷ rest s.heap k xs

  insert_node-IsSkipList :
      node_with s.heap k xs ≡ none → IsSkipList (insert_node n (find_precursors k s) k v s) spliced
  unfolding insert_node
  insert_node-IsSkipList absent =
      let l : ℕ = if ltb s.level_now n then n else s.level_now in
      record {
        linked = made-IsLinked n cells k v s xs i pos bound absent cells_lem;
        sorted = made-IsSorted n cells k v s xs i pos bound absent cells_lem;
        made =
            made-AllMade n cells k v s xs i pos bound absent cells_lem l (ground arith)
              (ground arith);
        begun = omega arith;
        counted = made_length n cells k v s xs i pos bound absent cells_lem;
        head_level =
            (old n cells k v s xs i pos bound absent cells_lem head
              (head_old n cells k v s xs i pos bound absent cells_lem)).level
            ∙ i.head_level;
        bottom = ground (arith, i.bottom);
        top = ground (arith, i.top);
      }

  insert_node-read_value :
      node_with s.heap k xs ≡ none
      → (k' : Bytes)
      → read_value k' (insert_node n (find_precursors k s) k v s)
        ≡ (if bytes_eq k k' then some v else read_value k' s)
  unfolding insert_node read_value
  insert_node-read_value absent k' =
      let t = insert_node n (find_precursors k s) k v s in
      let found =
        find_lem k' t spliced (insert_node-IsSkipList absent)
        ∙ made_node_with n cells k v s xs i pos bound absent cells_lem k' in
      let found' = find_lem k' s xs i in
      elim (Bool-cases (bytes_eq k k')) [
        | inl same ↦
            ground (arith, found, same, (new n cells k v s xs i pos bound absent cells_lem).value)
        | inr other ↦ elim (Option-cases (node_with s.heap k' xs)) [
          | inl gone ↦ ground (arith, found, found', other, gone)
          | inr (a, e) ↦ ground (
            arith,
            found,
            found',
            other,
            e,
            made_value n cells k v s xs i pos bound absent cells_lem k' a e,
          )
        ]
      ]

  insert-none :
      node_with s.heap k xs ≡ none → insert n k v s ≡ insert_node n (find_precursors k s) k v s
  unfolding insert
  insert-none e = rw (find-precursors k s i.bottom ∙ find_lem k s xs i ∙ e, insert) refl

  insert-some : (a : ℕ) → node_with s.heap k xs ≡ some a → insert n k v s ≡ s
  unfolding insert
  insert-some a e = rw (find-precursors k s i.bottom ∙ find_lem k s xs i ∙ e, insert) refl

  read_value-none : node_with s.heap k xs ≡ none → read_value k s ≡ none
  unfolding read_value
  read_value-none e = ground (arith, find_lem k s xs i, e)

  read_value-some :
      (a : ℕ) → node_with s.heap k xs ≡ some a → read_value k s ≡ some (s.heap a).value
  unfolding read_value
  read_value-some a e = ground (arith, find_lem k s xs i, e)

  new_cell :
      node_with s.heap k xs ≡ none
      → ((insert_node n (find_precursors k s) k v s).heap (find_precursors k s 0)).forward 0
        ≡ some s.fresh
  unfolding insert_node
  new_cell absent =
      let first : cells 0 ≡ find_precursors k s 0 = ground (arith, i.bottom) in
      subst (λ c. ((insert_node n (find_precursors k s) k v s).heap c).forward 0 ≡ some s.fresh)
        first
        (old_forward n cells k v s xs i pos bound absent cells_lem (cells 0) 0
            (pre_old n cells k v s xs i pos bound absent cells_lem 0)
          ∙ ground (arith, pos))

  new_found :
      node_with s.heap k xs ≡ none
      → node_with (insert_node n (find_precursors k s) k v s).heap k spliced ≡ some s.fresh
  unfolding insert_node
  new_found absent =
      made_node_with n cells k v s xs i pos bound absent cells_lem k
      ∙ ground (arith, bytes_eq_self k)

  -- What `insert` is to do: it adds a key that is not there, and leaves the value of one that is.
  abbrev pub Inserts : SkipList → Type 0
  Inserts t =
      (ys : List ℕ) × IsSkipList t ys
      × ((k' : Bytes)
          → read_value k' t
            ≡ (if bytes_eq k k' then or_else (read_value k s) (some v) else read_value k' s))

  pub insert_lem : Inserts (insert n k v s)
  insert_lem = elim (Option-cases (node_with s.heap k xs)) [
    | inl absent ↦ subst Inserts (sym (insert-none absent)) (
      spliced,
      insert_node-IsSkipList absent,
      λ k'. insert_node-read_value absent k' ∙ ground (arith, read_value-none absent),
    )
    | inr (a, e) ↦
        subst Inserts (sym (insert-some a e))
          (xs, i, λ k'. ground (arith, read_value-some a e, bytes_eq_iff k k'))
  ]

  -- After `insert`, the pointer that the search went past leads to the node of the key.
  pub insert_cell :
      (ys : List ℕ) × (a : ℕ) × IsSkipList (insert n k v s) ys
      × (((insert n k v s).heap (find_precursors k s 0)).forward 0 ≡ some a)
      × (node_with (insert n k v s).heap k ys ≡ some a)
  insert_cell = elim (Option-cases (node_with s.heap k xs)) [
    | inl absent ↦ (
      spliced,
      s.fresh,
      subst (λ t. IsSkipList t spliced) (sym (insert-none absent)) (insert_node-IsSkipList absent),
      ap (λ t. (t.heap (find_precursors k s 0)).forward 0) (insert-none absent) ∙ new_cell absent,
      ap (λ t. node_with t.heap k spliced) (insert-none absent) ∙ new_found absent,
    )
    | inr (a, e) ↦ (
      xs,
      a,
      subst (λ t. IsSkipList t xs) (sym (insert-some a e)) i,
      ap (λ t. (t.heap (find_precursors k s 0)).forward 0) (insert-some a e)
          ∙ node_after-forward s.heap k (find_precursors k s 0) a
              (find-precursors k s i.bottom ∙ find_lem k s xs i ∙ e),
      ap (λ t. node_with t.heap k xs) (insert-some a e) ∙ e,
    )
  ]
