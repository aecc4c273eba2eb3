-- ===== src/SkipList/Unlink.antt =====
-- The loop of `remove` that takes a node out of the chains of its levels.
use raft_kvstorage.Common.{
  ℕ, zero, suc, ◌+◌, ◌<◌, ◌≤◌, ◌≡◌, ◌≢◌, refl, subst, ◌∙◌, ◌&&◌, inl, inr, Bool-cases, List, [],
  ◌∷◌, ◌++◌, ltb, leb, ◌==◌, if◌then◌else◌, arith,
}
use raft_kvstorage.SkipList.{SkipNode, set_forward, is_at, unlink}
use raft_kvstorage.SkipList.Chain.{next_at, last_at, IsLinked}
use raft_kvstorage.SkipList.Search.{linked-forward}
use raft_kvstorage.SkipList.Link.{SameData}
use raft_kvstorage.SkipList.Splice.{Apart, Distinct, last_at-Apart}

module _ (a : ℕ) (pre : ℕ → ℕ) where
  pub unlink-SameData :
      (n l : ℕ) (heap : ℕ → SkipNode) (x : ℕ) → SameData (unlink a l pre n heap x) (heap x)
  unfolding unlink set_forward
  unlink-SameData zero l heap x = record { key = refl; value = refl; level = refl }
  unlink-SameData (suc n) l heap x =
      let ih = unlink-SameData n (l + 1) (set_forward (pre l) l ((heap a).forward l) heap) x in
      record {
        key = ground (arith, ih.key);
        value = ground (arith, ih.value);
        level = ground (arith, ih.level);
      }

  -- Up to level `m` the places lead to the node, and no further.
  pub unlink-forward :
      (n l m : ℕ) (heap : ℕ → SkipNode)
      → ((i : ℕ) → pre i ≢ a)
      → ((j : ℕ) → l ≤ j → j < l + n → is_at a ((heap (pre j)).forward j) ≡ ltb j m)
      → (x j : ℕ)
      → (unlink a l pre n heap x).forward j ≡ (
          if leb l j && (ltb j (l + n) && (ltb j m && x == pre j))
          then (heap a).forward j
          else (heap x).forward j)
  unfolding unlink set_forward
  unlink-forward zero l m heap other leads x j = ground arith
  unlink-forward (suc n) l m heap other leads x j =
      let heap' = set_forward (pre l) l ((heap a).forward l) heap in
      let ih =
        unlink-forward n (l + 1) m heap' other
          (λ i le lt. ground (arith, leads i, other i, other l)) x j in
      elim (Bool-cases (is_at a ((heap (pre l)).forward l))) [
        | inl on ↦ ground (arith, on, ih, leads l, other l)
        | inr off ↦ ground (arith, off, leads l)
      ]

module _ (h h' : ℕ → SkipNode) (a m : ℕ) (pre : ℕ → ℕ)
    (levels : (x : ℕ) → (h' x).level ≡ (h x).level) (level : (h a).level ≡ m)
    (forwards : (x j : ℕ)
      → (h' x).forward j
        ≡ (if ltb j m && x == pre j then (h a).forward j else (h x).forward j)) where
  next_kept : (j : ℕ) (xs : List ℕ) → next_at h' j xs ≡ next_at h j xs
  next_kept j [] = refl
  next_kept j (x ∷ xs) = ground (arith, levels x, next_kept j xs)

  next_without :
      (j b : ℕ) (ps qs : List ℕ)
      → Apart b ps
      → next_at h' j (ps ++ qs)
        ≡ (if ltb j m && b == last_at h j b ps then next_at h j qs else next_at h j (ps ++ a ∷ qs))
  next_without j b [] qs d = ground (arith, level, next_kept j qs)
  next_without j b (x ∷ ps) qs d =
      ground (arith, levels x, next_without j b ps qs d.1, last_at-Apart h j x b ps d.0 d.1)

  kept :
      (b : ℕ) (qs : List ℕ)
      → ((j : ℕ) → b ≢ pre j)
      → ((j : ℕ) → Apart (pre j) qs)
      → IsLinked h b qs
      → IsLinked h' b qs
  kept b [] p ps l = λ j lt. ground (arith, forwards b j, p j, l j, levels b)
  kept b (x ∷ qs) p ps l = (
    λ j lt. ground (arith, forwards b j, p j, l.0 j, levels b, next_kept j (x ∷ qs)),
    ground (arith, levels x, l.1),
    kept x qs (λ j. (ps j).0) (λ j. (ps j).1) l.2,
  )

  -- From `b` on, where the node comes right behind it.
  unsplice_here :
      (b : ℕ) (qs : List ℕ)
      → ((j : ℕ) → Apart (pre j) qs)
      → ((j : ℕ) → j < (h b).level → pre j ≡ b)
      → IsLinked h b (a ∷ qs)
      → IsLinked h' b qs
  unsplice_here b [] dp here l =
      λ j lt. ground (arith, level, levels b, forwards b j, here j, l.0 j, l.2 j)
  unsplice_here b (x ∷ qs) dp here l = (
    λ j lt.
        ground (arith, level, levels b, forwards b j, here j, l.0 j, l.2.0 j, next_kept j (x ∷ qs)),
    ground (arith, levels x, l.2.1),
    kept x qs (λ j. (dp j).0) (λ j. (dp j).1) l.2.2,
  )

  pub unsplice :
      (b : ℕ) (cur : ℕ → ℕ) (ps qs : List ℕ)
      → Apart b ps
      → Distinct ps
      → ((j : ℕ) → Apart (pre j) qs)
      → IsLinked h a qs
      → ((j : ℕ) → j < (h b).level → cur j ≡ b)
      → ((j : ℕ) → pre j ≡ last_at h j (cur j) ps)
      → IsLinked h b (ps ++ a ∷ qs)
      → IsLinked h' b (ps ++ qs)
  unsplice b cur [] qs db dd dp leads here pres l =
      unsplice_here b qs dp (λ j lt. pres j ∙ here j lt) l
  unsplice b cur (x ∷ ps) qs db dd dp leads here pres l = (
    λ j lt.
        let low : j < (h b).level = ground (arith, levels b) in
        let at : pre j ≡ last_at h j b (x ∷ ps) =
          subst (λ c. pre j ≡ last_at h j c (x ∷ ps)) (here j low) (pres j) in
        ground (
          arith,
          forwards b j,
          at,
          next_without j b (x ∷ ps) qs db,
          l.0 j low,
          level,
          linked-forward h j a qs leads,
        ),
    ground (arith, levels x, l.1),
    unsplice x (λ j. if ltb j (h x).level then x else cur j) ps qs dd.0 dd.1 dp leads
        (λ j lt. ground arith) (λ j. pres j ∙ ground arith) l.2,
  )
