-- ===== src/SkipList/Precursors.antt =====
-- `_M_findPrecursors`: on each level the last node with a smaller key.
use raft_kvstorage.Common.{
  ℕ, zero, suc, ◌<◌, ◌≤◌, ◌≡◌, refl, sym, ◌∙◌, inl, inr, Bool-cases, List, [], ◌∷◌, Bytes, length,
  ltb, arith, ap, ◌==◌, if◌then◌else◌,
}
use native.Mathlib.Decide.{dec_lt}
use raft_kvstorage.SkipList.{
  SkipNode, SkipList, head, advance, descend, precursors, find_precursors, node_after, find,
}
use raft_kvstorage.SkipList.Chain.{last_at, low, IsLinked, IsSorted, AllMade, IsSkipList}
use raft_kvstorage.SkipList.Search.{Stops, advance_lem}

-- Behind the place where the loop stops, no node of the level has a smaller key.
last_at-Stops :
    (heap : ℕ → SkipNode) (k : Bytes) (l c : ℕ) (xs : List ℕ)
    → Stops heap k l xs
    → last_at heap l c (low heap k xs) ≡ c
last_at-Stops heap k l c [] stops = refl
last_at-Stops heap k l c (a ∷ xs) stops = elim (Bool-cases (ltb l (heap a).level)) [
  | inl high ↦ ground (arith, high, stops a)
  | inr below ↦
      ground (arith, below, last_at-Stops heap k l c xs (λ b e. stops b (ground (arith, below, e))))
]

precursors_above :
    (n fuel : ℕ) (heap : ℕ → SkipNode) (k : Bytes) (a : ℕ) (pre : ℕ → ℕ) (j : ℕ)
    → n ≤ j
    → precursors fuel heap k n a pre j ≡ pre j
unfolding precursors
precursors_above zero fuel heap k a pre j le = refl
precursors_above (suc l) fuel heap k a pre j le =
    let c = advance fuel heap k l a in
    ground (arith, precursors_above l fuel heap k c (λ i. if l == i then c else pre i) j)

precursors_lem :
    (n fuel : ℕ) (heap : ℕ → SkipNode) (k : Bytes) (a : ℕ) (xs : List ℕ) (pre : ℕ → ℕ)
    → n ≤ (heap a).level
    → length xs ≤ fuel
    → IsLinked heap a xs
    → IsSorted heap xs
    → (j : ℕ) → j < n
    → precursors fuel heap k n a pre j ≡ last_at heap j a (low heap k xs)
unfolding precursors
precursors_lem zero fuel heap k a xs pre h le n s j lt = elim lt [ ]
precursors_lem (suc l) fuel heap k a xs pre h le n s j lt =
    let c = advance fuel heap k l a in
    let pre' : ℕ → ℕ = λ i. if l == i then c else pre i in
    let (ys, p, stops, leads) = advance_lem fuel heap k l a xs le n s h in
    elim (dec_lt j l) [
      | yes below ↦
          precursors_lem l fuel heap k c ys pre' (omega (arith, p.high))
            (omega (arith, le, p.short)) p.linked p.sorted j below
          ∙ sym (leads j (omega arith))
      | no at ↦
          let same : j ≡ l = omega arith in
          precursors_above l fuel heap k c pre' j (omega arith)
          ∙ ground (arith, same, leads l, last_at-Stops heap k l c ys stops)
    ]

-- No node stands above the levels in use.
pub last_at-AllMade :
    (heap : ℕ → SkipNode) (fresh n j a : ℕ) (k : Bytes) (xs : List ℕ)
    → AllMade heap fresh n xs
    → n ≤ j
    → last_at heap j a (low heap k xs) ≡ a
last_at-AllMade heap fresh n j a k [] m le = refl
last_at-AllMade heap fresh n j a k (b ∷ xs) m le =
    ground (arith, m.2, last_at-AllMade heap fresh n j a k xs m.3 le)

-- The cells are right on every level, also above those in use.
pub find_precursors_lem :
    (k : Bytes) (s : SkipList) (xs : List ℕ)
    → IsSkipList s xs
    → (j : ℕ) → find_precursors k s j ≡ last_at s.heap j head (low s.heap k xs)
unfolding find_precursors
find_precursors_lem k s xs i j = elim (dec_lt j s.level_now) [
  | yes below ↦
      precursors_lem s.level_now s.counter s.heap k head xs (λ l. head)
        (omega (arith, i.top, i.head_level)) (omega (arith, i.counted)) i.linked i.sorted j below
  | no above ↦
      precursors_above s.level_now s.counter s.heap k head (λ l. head) j (omega arith)
      ∙ sym (last_at-AllMade s.heap s.fresh s.level_now j head k xs i.made (omega arith))
]

precursors_first :
    (l fuel : ℕ) (heap : ℕ → SkipNode) (k : Bytes) (a : ℕ) (pre : ℕ → ℕ)
    → precursors fuel heap k (suc l) a pre 0 ≡ descend fuel heap k (suc l) a
unfolding precursors descend
precursors_first zero fuel heap k a pre = refl
precursors_first (suc l) fuel heap k a pre =
    let c = advance fuel heap k (suc l) a in
    precursors_first l fuel heap k c (λ i. if suc l == i then c else pre i)

-- The test after `_M_findPrecursors` is the one of `find`.
pub find-precursors :
    (k : Bytes) (s : SkipList)
    → 0 < s.level_now
    → node_after s.heap k (find_precursors k s 0) ≡ find k s
unfolding find_precursors find
find-precursors k s h = first s.level_now h
  where
    first :
        (n : ℕ)
        → 0 < n
        → node_after s.heap k (precursors s.counter s.heap k n head (λ l. head) 0)
          ≡ node_after s.heap k (descend s.counter s.heap k n head)
    first zero h = elim h [ ]
    first (suc l) h =
        ap (node_after s.heap k) (precursors_first l s.counter s.heap k head (λ l. head))
