-- ===== src/SkipList/Assign.antt =====
-- `operator[]` with an assignment.
use raft_kvstorage.Common.{
  ℕ, ◌<◌, ◌≤◌, ◌≡◌, ◌≢◌, refl, sym, ap, ◌∙◌, subst, inl, inr, Bool-cases, Option-cases, List, [],
  ◌∷◌, some, Bytes, bytes_eq, bytes_eq_iff, ◌==◌, if◌then◌else◌, arith,
}
use raft_kvstorage.SkipList.{
  SkipNode, SkipList, bytes_lt, max_level, head, set_node, find_precursors, insert, assign,
  read_value,
}
use raft_kvstorage.SkipList.Chain.{next_at, IsLinked, AllAbove, IsSorted, AllMade, IsSkipList}
use raft_kvstorage.SkipList.Search.{node_with}
use raft_kvstorage.SkipList.Find.{find_lem}
use raft_kvstorage.SkipList.Insert.{insert_lem, insert_cell}

module _ (a : ℕ) (v : Bytes) (h : ℕ → SkipNode) where
  abbrev h' : ℕ → SkipNode
  h' = set_node a (record (h a) { value = v }) h

  same_key : (x : ℕ) → (h' x).key ≡ (h x).key
  unfolding set_node
  same_key x = ground arith

  same_level : (x : ℕ) → (h' x).level ≡ (h x).level
  unfolding set_node
  same_level x = ground arith

  same_forward : (x j : ℕ) → (h' x).forward j ≡ (h x).forward j
  unfolding set_node
  same_forward x j = ground arith

  same_value : (x : ℕ) → (h' x).value ≡ (if a == x then v else (h x).value)
  unfolding set_node
  same_value x = ground arith

  same_next : (l : ℕ) (xs : List ℕ) → next_at h' l xs ≡ next_at h l xs
  same_next l [] = refl
  same_next l (x ∷ xs) = ground (arith, same_level x, same_next l xs)

  same_node_with : (k : Bytes) (xs : List ℕ) → node_with h' k xs ≡ node_with h k xs
  same_node_with k [] = refl
  same_node_with k (x ∷ xs) = ground (arith, same_key x, same_node_with k xs)

  IsLinked-with_value : (b : ℕ) (xs : List ℕ) → IsLinked h b xs → IsLinked h' b xs
  IsLinked-with_value b [] n = λ l lt. same_forward b l ∙ n l (omega (arith, lt, same_level b))
  IsLinked-with_value b (x ∷ xs) n = (
    λ l lt. same_forward b l ∙ n.0 l (omega (arith, lt, same_level b)) ∙ sym (same_next l (x ∷ xs)),
    omega (arith, n.1, same_level x),
    IsLinked-with_value x xs n.2,
  )

  AllAbove-with_value : (k : Bytes) (xs : List ℕ) → AllAbove h k xs → AllAbove h' k xs
  AllAbove-with_value k [] s = tt
  AllAbove-with_value k (x ∷ xs) s =
      (ap (bytes_lt k) (same_key x) ∙ s.0, AllAbove-with_value k xs s.1)

  IsSorted-with_value : (xs : List ℕ) → IsSorted h xs → IsSorted h' xs
  IsSorted-with_value [] s = tt
  IsSorted-with_value (x ∷ xs) s = (
    subst (λ k. AllAbove h' k xs) (sym (same_key x)) (AllAbove-with_value (h x).key xs s.0),
    IsSorted-with_value xs s.1,
  )

  AllMade-with_value : (fresh n : ℕ) (xs : List ℕ) → AllMade h fresh n xs → AllMade h' fresh n xs
  AllMade-with_value fresh n [] m = tt
  AllMade-with_value fresh n (x ∷ xs) m =
      (m.0, m.1, omega (arith, m.2, same_level x), AllMade-with_value fresh n xs m.3)

abbrev put_value : ℕ → Bytes → SkipList → SkipList
put_value a v t = record t { heap = set_node a (record (t.heap a) { value = v }) t.heap }

put_value-IsSkipList :
    (a : ℕ) (v : Bytes) (t : SkipList) (xs : List ℕ)
    → IsSkipList t xs
    → IsSkipList (put_value a v t) xs
put_value-IsSkipList a v t xs i = record {
  linked = IsLinked-with_value a v t.heap head xs i.linked;
  sorted = IsSorted-with_value a v t.heap xs i.sorted;
  made = AllMade-with_value a v t.heap t.fresh t.level_now xs i.made;
  begun = i.begun;
  counted = i.counted;
  head_level = same_level a v t.heap head ∙ i.head_level;
  bottom = i.bottom;
  top = i.top;
}

node_with-key :
    (h : ℕ → SkipNode) (k : Bytes) (a : ℕ) (xs : List ℕ) → node_with h k xs ≡ some a → (h a).key ≡ k
node_with-key h k a [] e = cc
node_with-key h k a (x ∷ xs) e = ground (arith, bytes_eq_iff (h x).key k, node_with-key h k a xs)

put_value-read :
    (a : ℕ) (k v : Bytes) (t : SkipList) (xs : List ℕ)
    → IsSkipList t xs
    → node_with t.heap k xs ≡ some a
    → (k' : Bytes)
    → read_value k' (put_value a v t) ≡ (if bytes_eq k k' then some v else read_value k' t)
unfolding read_value
put_value-read a k v t xs i e k' =
    let found =
      find_lem k' (put_value a v t) xs (put_value-IsSkipList a v t xs i)
      ∙ same_node_with a v t.heap k' xs in
    let found' = find_lem k' t xs i in
    elim (Bool-cases (bytes_eq k k')) [
      | inl same ↦
          let here = subst (λ y. node_with t.heap y xs ≡ some a) ((bytes_eq_iff k k').0 same) e in
          ground (arith, found, same, here, same_value a v t.heap a)
      | inr other ↦ elim (Option-cases (node_with t.heap k' xs)) [
        | inl gone ↦ ground (arith, found, found', other, gone)
        | inr (b, e') ↦
            let differs : a ≢ b = λ same.
              let key = node_with-key t.heap k a xs e in
              let key' = node_with-key t.heap k' b xs e' in
              cc (other, (bytes_eq_iff k k').1 (sym key ∙ ap (λ x. (t.heap x).key) same ∙ key')) in
            ground (arith, found, found', other, e', same_value a v t.heap b)
      ]
    ]

assign-eq-put_value :
    (n : ℕ) (k v : Bytes) (s : SkipList) (a : ℕ)
    → ((insert n k [] s).heap (find_precursors k s 0)).forward 0 ≡ some a
    → assign n k v s ≡ put_value a v (insert n k [] s)
unfolding assign
assign-eq-put_value n k v s a e = rw (e, assign) refl

-- After `(*this)[k] = v` the list stands for nodes of which `k` has the value `v`, and every other
-- key has what it had.
pub assign_lem :
    (n : ℕ) (k v : Bytes) (s : SkipList) (xs : List ℕ)
    → IsSkipList s xs
    → 0 < n
    → n ≤ max_level
    → (ys : List ℕ) × IsSkipList (assign n k v s) ys
      × ((k' : Bytes)
          → read_value k' (assign n k v s) ≡ (if bytes_eq k k' then some v else read_value k' s))
assign_lem n k v s xs i pos bound =
    let (ys, a, j, cell, found) = insert_cell n k [] s xs i pos bound in
    let (_, _, reads) = insert_lem n k [] s xs i pos bound in
    let t = insert n k [] s in
    let e = assign-eq-put_value n k v s a cell in
    (
      ys,
      subst (λ u. IsSkipList u ys) (sym e) (put_value-IsSkipList a v t ys j),
      λ k'. ap (read_value k') e ∙ put_value-read a k v t ys j found k' ∙ ground (arith, reads k'),
    )
