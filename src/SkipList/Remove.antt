-- ===== src/SkipList/Remove.antt =====
-- `remove` takes one key out, and keeps the shape of the list.
use raft_kvstorage.Common.{
  ℕ, ◌-◌, ◌<◌, ◌≤◌, ◌≡◌, ◌≢◌, refl, sym, ap, subst, ◌∙◌, true, ◌&&◌, inl, inr, Bool-cases,
  Option-cases, List, [], ◌∷◌, ◌++◌, All, none, some, Bytes, bytes_eq, bytes_eq_iff, length-append,
  ltb, ◌==◌, if◌then◌else◌, arith,
}
use raft_kvstorage.SkipList.{
  SkipNode, SkipList, bytes_lt, max_level, head, is_at, unlink, shrink, remove, find_precursors,
  read_value,
}
use raft_kvstorage.SkipList.Chain.{next_at, last_at, low, IsLinked, IsSorted, AllMade, IsSkipList}
use raft_kvstorage.SkipList.Search.{node_with, linked-forward}
use raft_kvstorage.SkipList.Find.{find_lem}
use raft_kvstorage.SkipList.Precursors.{find_precursors_lem, find-precursors}
use raft_kvstorage.SkipList.Link.{SameData}
use raft_kvstorage.SkipList.Splice.{Apart, Distinct, last_at-Apart, last_at-forward}
use raft_kvstorage.SkipList.Sorted.{
  low-append-rest, AllBelow-low, Distinct-IsSorted, All-append_parts, Distinct-append,
  Apart-last_at, AllMade-Apart, IsSorted-same,
}
use raft_kvstorage.SkipList.Unlink.{unlink-SameData, unlink-forward, unsplice}
use raft_kvstorage.SkipList.Removal.{
  All-every, rest-node_with, IsLinked-right, IsSorted-right, IsSorted-without, AllMade-node,
  AllMade-without, node_with-without, is_at-next_at, shrink_lem,
}

-- The list `xs` is the nodes `ps` with smaller keys, the node `a` of the key, and the nodes `qs`.
module _ (k : Bytes) (s : SkipList) (a : ℕ) (ps qs : List ℕ) (i : IsSkipList s (ps ++ a ∷ qs))
    (key : (s.heap a).key ≡ k) (below : All (λ x. bytes_lt (s.heap x).key (s.heap a).key ≡ true) ps)
    (pres : (j : ℕ) → find_precursors k s j ≡ last_at s.heap j head ps) where
  abbrev cut : ℕ → SkipNode
  cut = unlink a 0 (find_precursors k s) s.level_now s.heap

  distinct : Distinct ps × All (λ x. Apart x (a ∷ qs)) ps
  distinct = Distinct-append ps (a ∷ qs) (Distinct-IsSorted s.heap (ps ++ a ∷ qs) i.sorted)

  not_head : Apart head ps × Apart head (a ∷ qs)
  not_head =
      All-append_parts (λ x. x ≢ head) ps (a ∷ qs)
        (AllMade-Apart s.heap s.fresh s.level_now (ps ++ a ∷ qs) i.made).0

  IsSorted-rest : IsSorted s.heap (a ∷ qs)
  IsSorted-rest = IsSorted-right s.heap ps (a ∷ qs) i.sorted

  behind : Apart a qs
  behind = (Distinct-IsSorted s.heap (a ∷ qs) IsSorted-rest).0

  before_node :
      (xs : List ℕ) → All (λ x. Apart x (a ∷ qs)) xs → Apart a xs × All (λ x. Apart x qs) xs
  before_node [] d = (tt, tt)
  before_node (x ∷ xs) d =
      let (ds, es) = before_node xs d.1 in ((λ e. d.0.0 (sym e), ds), (d.0.1, es))

  pre_other : (j : ℕ) → find_precursors k s j ≢ a
  pre_other j =
      rw (pres j)
        (last_at-Apart s.heap j head a ps (λ e. not_head.1.0 (sym e)) (before_node ps distinct.1).0)

  pre_below : (j : ℕ) → Apart (find_precursors k s j) qs
  pre_below j =
      rw (pres j) (Apart-last_at s.heap j head ps qs not_head.1.1 (before_node ps distinct.1).1)

  node_level : (s.heap a).level ≤ s.level_now
  node_level = (AllMade-node s.heap s.fresh s.level_now a ps qs i.made).1

  leads :
      (j : ℕ)
      → j < s.level_now
      → is_at a ((s.heap (find_precursors k s j)).forward j) ≡ ltb j (s.heap a).level
  leads j lt =
      let first : (s.heap head).forward j ≡ next_at s.heap j (ps ++ a ∷ qs) =
        linked-forward s.heap j head (ps ++ a ∷ qs) i.linked
          (omega (arith, lt, i.top, i.head_level)) in
      let at : (s.heap (find_precursors k s j)).forward j ≡ next_at s.heap j (a ∷ qs) =
        rw (pres j) (last_at-forward s.heap j head head ps (a ∷ qs) first i.linked) in
      ground (arith, at, is_at-next_at s.heap a j qs behind)

  cut_forward :
      (x j : ℕ)
      → (cut x).forward j ≡ (
          if ltb j (s.heap a).level && x == find_precursors k s j
          then (s.heap a).forward j
          else (s.heap x).forward j)
  cut_forward x j = ground (
    arith,
    unlink-forward a (find_precursors k s) s.level_now 0 (s.heap a).level s.heap pre_other
        (λ l le lt. leads l (omega (arith, lt))) x j,
    node_level,
  )

  cut_data : (x : ℕ) → SameData (cut x) (s.heap x)
  cut_data x = unlink-SameData a (find_precursors k s) s.level_now 0 s.heap x

  cut-IsLinked : IsLinked cut head (ps ++ qs)
  cut-IsLinked =
      unsplice s.heap cut a (s.heap a).level (find_precursors k s) (λ x. (cut_data x).level) refl
        cut_forward head (λ j. head) ps qs not_head.0 distinct.0 pre_below
        (IsLinked-right s.heap head a ps qs i.linked) (λ j lt. refl) pres i.linked

  same_made : (n : ℕ) (xs : List ℕ) → AllMade s.heap s.fresh n xs → AllMade cut s.fresh n xs
  same_made n [] m = tt
  same_made n (x ∷ xs) m =
      (m.0, m.1, subst (λ l. l ≤ n) (sym (cut_data x).level) m.2, same_made n xs m.3)

  cut-AllMade : AllMade cut s.fresh s.level_now (ps ++ qs)
  cut-AllMade =
      same_made s.level_now (ps ++ qs) (AllMade-without s.heap s.fresh s.level_now a ps qs i.made)

  cut-head : (cut head).level ≡ max_level
  cut-head = (cut_data head).level ∙ i.head_level

  shrunk :
      (0 < shrink cut s.level_now)
      × (shrink cut s.level_now ≤ s.level_now)
      × AllMade cut s.fresh (shrink cut s.level_now) (ps ++ qs)
  shrunk =
      shrink_lem s.level_now cut s.fresh (ps ++ qs) i.bottom (omega (arith, i.top, cut-head))
        cut-IsLinked cut-AllMade

  abbrev pub without_node : SkipList
  without_node = record s {
    heap = cut;
    level_now = shrink cut s.level_now;
    counter = s.counter - 1;
  }

  pub without_node-IsSkipList : IsSkipList without_node (ps ++ qs)
  without_node-IsSkipList = record {
    linked = cut-IsLinked;
    sorted =
        IsSorted-same s.heap cut (ps ++ qs)
          (All-every (λ x. (cut x).key ≡ (s.heap x).key) (ps ++ qs) (λ x. (cut_data x).key))
          (IsSorted-without s.heap a ps qs i.sorted);
    made = shrunk.2;
    begun = i.begun;
    counted = omega (arith, i.counted, length-append {0} ps qs, length-append {0} ps (a ∷ qs));
    head_level = cut-head;
    bottom = shrunk.0;
    top = omega (arith, shrunk.1, i.top);
  }

  same_node_with : (k' : Bytes) (xs : List ℕ) → node_with cut k' xs ≡ node_with s.heap k' xs
  same_node_with k' [] = refl
  same_node_with k' (x ∷ xs) = ground (arith, (cut_data x).key, same_node_with k' xs)

  pub without_node-read_value :
      (k' : Bytes) → read_value k' without_node ≡ (if bytes_eq k k' then none else read_value k' s)
  unfolding read_value
  without_node-read_value k' =
      let found =
        find_lem k' without_node (ps ++ qs) without_node-IsSkipList
        ∙ same_node_with k' (ps ++ qs)
        ∙ node_with-without s.heap a k' ps qs below IsSorted-rest.0
        ∙ ap (λ y. if bytes_eq y k' then none else node_with s.heap k' (ps ++ a ∷ qs)) key in
      let found' = find_lem k' s (ps ++ a ∷ qs) i in
      elim (Bool-cases (bytes_eq k k')) [
        | inl same ↦ ground (arith, found, same)
        | inr other ↦ elim (Option-cases (node_with s.heap k' (ps ++ a ∷ qs))) [
          | inl gone ↦ ground (arith, found, found', other, gone)
          | inr (b, e) ↦ ground (arith, found, found', other, e, (cut_data b).value)
        ]
      ]

module _ (k : Bytes) (s : SkipList) (xs : List ℕ) (i : IsSkipList s xs) where
  -- What `remove` is to do.
  abbrev pub Removes : SkipList → Type 0
  Removes t =
      (ys : List ℕ) × IsSkipList t ys
      × ((k' : Bytes) → read_value k' t ≡ (if bytes_eq k k' then none else read_value k' s))

  remove-none : node_with s.heap k xs ≡ none → remove k s ≡ s
  unfolding remove
  remove-none e = rw (find-precursors k s i.bottom ∙ find_lem k s xs i ∙ e, remove) refl

  remove-some :
      (a : ℕ)
      → node_with s.heap k xs ≡ some a
      → remove k s ≡ (
          let heap = unlink a 0 (find_precursors k s) s.level_now s.heap in
          record s { heap = heap; level_now = shrink heap s.level_now; counter = s.counter - 1 })
  unfolding remove
  remove-some a e = rw (find-precursors k s i.bottom ∙ find_lem k s xs i ∙ e, remove) refl

  read_value-none : node_with s.heap k xs ≡ none → read_value k s ≡ none
  unfolding read_value
  read_value-none e = ground (arith, find_lem k s xs i, e)

  -- After `remove` the list stands for nodes without the key, where every other key has the value
  -- that it had; a key that is not there changes nothing.
  pub remove_lem : Removes (remove k s)
  remove_lem = elim (Option-cases (node_with s.heap k xs)) [
    | inl absent ↦
        subst Removes (sym (remove-none absent))
          (xs, i, λ k'. ground (arith, read_value-none absent, bytes_eq_iff k k'))
    | inr (a, e) ↦
        let (qs, r, key) = rest-node_with s.heap k a xs i.sorted e in
        let whole : xs ≡ low s.heap k xs ++ a ∷ qs =
          sym (low-append-rest s.heap k xs) ∙ ap (λ zs. low s.heap k xs ++ zs) r in
        let j = subst (IsSkipList s) whole i in
        let below =
          subst (λ y. All (λ x. bytes_lt (s.heap x).key y ≡ true) (low s.heap k xs)) (sym key)
            (AllBelow-low s.heap k xs) in
        let pres = find_precursors_lem k s xs i in
        subst Removes (sym (remove-some a e)) (
          low s.heap k xs ++ qs,
          without_node-IsSkipList k s a (low s.heap k xs) qs j key below pres,
          without_node-read_value k s a (low s.heap k xs) qs j key below pres,
        )
  ]
