-- ===== src/SkipList/Search.antt =====
-- A search finds what a walk over all nodes finds.
use raft_kvstorage.Common.{
  ℕ, zero, suc, ◌<◌, ◌≤◌, ◌≡◌, refl, sym, ◌∙◌, subst, true, false, inl, inr, Bool-cases,
  Option-cases, List, [], ◌∷◌, Option, none, some, Bytes, bytes_eq, length, ltb, arith,
  if◌then◌else◌,
}
use raft_kvstorage.SkipList.{SkipNode, bytes_lt, advance}
use raft_kvstorage.Table.{bytes_eq_other}
use raft_kvstorage.SkipList.Order.{bytes_lt_trans, bytes_lt_other}
use raft_kvstorage.SkipList.Chain.{next_at, last_at, low, IsLinked, AllAbove, IsSorted}

-- The node with the key `k`.
abbrev pub node_with : (ℕ → SkipNode) → Bytes → List ℕ → Option ℕ
node_with heap k [] = none
node_with heap k (a ∷ xs) = if bytes_eq (heap a).key k then some a else node_with heap k xs

-- What the loop keeps: a place `a` in the list, with `xs` behind it, that has a level `l`.
pub record IsPlace (heap : ℕ → SkipNode) (k : Bytes) (xs : List ℕ) (l b : ℕ) (ys : List ℕ)
    : Type 0 where
  pub linked : IsLinked heap b ys
  pub sorted : IsSorted heap ys
  pub high : l < (heap b).level
  pub same : node_with heap k ys ≡ node_with heap k xs
  pub short : length ys ≤ length xs

-- On the levels up to `l`, the nodes that a search for `k` leaves behind are the same from `a` as
-- from `b`.
abbrev pub Leads : (ℕ → SkipNode) → Bytes → ℕ → ℕ → List ℕ → ℕ → List ℕ → Type 0
Leads heap k l a xs b ys =
    (j : ℕ) → j ≤ l → last_at heap j a (low heap k xs) ≡ last_at heap j b (low heap k ys)

above-next :
    (heap : ℕ → SkipNode) (k : Bytes) (l b : ℕ) (xs : List ℕ)
    → AllAbove heap k xs
    → next_at heap l xs ≡ some b
    → bytes_lt k (heap b).key ≡ true
above-next heap k l b [] h e = cc
above-next heap k l b (a ∷ xs) h e = ground (arith, above-next heap k l b xs h.1)

smaller : (x k : Bytes) → bytes_lt x k ≡ true → bytes_eq x k ≡ false
smaller x k h = bytes_eq_other x k (bytes_lt_other x k h)

-- One step on level `l`.
step :
    (heap : ℕ → SkipNode) (k : Bytes) (l a b : ℕ) (xs : List ℕ)
    → IsLinked heap a xs
    → IsSorted heap xs
    → next_at heap l xs ≡ some b
    → bytes_lt (heap b).key k ≡ true
    → (ys : List ℕ) × IsPlace heap k xs l b ys
      × (length ys < length xs)
      × ((c : ℕ) → Leads heap k l c xs b ys)
step heap k l a b [] n s e lt = cc
step heap k l a b (c ∷ xs) n s e lt = elim (Bool-cases (ltb l (heap c).level)) [
  | inl high ↦
      let same : c ≡ b = ground (arith, e, high) in
      let passed = smaller (heap b).key k lt in
      (
        xs,
        record {
          linked = subst (λ d. IsLinked heap d xs) same n.2;
          sorted = s.1;
          high = ground (arith, high, rw same at high);
          same = ground (arith, passed, rw (sym same) at passed);
          short = ground arith;
        },
        ground arith,
        λ d j le.
            ground (arith, high, subst (λ x. bytes_lt (heap x).key k ≡ true) (sym same) lt, same),
      )
  | inr low ↦
      let e' : next_at heap l xs ≡ some b = ground (arith, e, low) in
      let before =
        bytes_lt_trans (heap c).key (heap b).key k (above-next heap (heap c).key l b xs s.0 e')
          lt in
      let passed = smaller (heap c).key k before in
      let (ys, p, short, leads) = step heap k l c b xs n.2 s.1 e' lt in
      (
        ys,
        record {
          linked = p.linked;
          sorted = p.sorted;
          high = p.high;
          same = p.same ∙ ground (arith, passed);
          short = ground (arith, short);
        },
        ground (arith, short),
        λ d j le. ground (arith, before, leads c j, leads d j),
      )
]

-- Where the loop stops on level `l`: the next node of the level, if there is one, has no smaller key.
abbrev pub Stops : (ℕ → SkipNode) → Bytes → ℕ → List ℕ → Type 0
Stops heap k l xs = (b : ℕ) → next_at heap l xs ≡ some b → bytes_lt (heap b).key k ≡ false

pub linked-forward :
    (heap : ℕ → SkipNode) (l a : ℕ) (xs : List ℕ)
    → IsLinked heap a xs
    → l < (heap a).level
    → (heap a).forward l ≡ next_at heap l xs
linked-forward heap l a [] n h = n l h
linked-forward heap l a (b ∷ xs) n h = n.0 l h

here :
    (heap : ℕ → SkipNode) (k : Bytes) (l a : ℕ) (xs : List ℕ)
    → IsLinked heap a xs
    → IsSorted heap xs
    → l < (heap a).level
    → IsPlace heap k xs l a xs
here heap k l a xs n s h = record {
  linked = n;
  sorted = s;
  high = h;
  same = refl;
  short = omega arith;
}

beyond :
    (heap : ℕ → SkipNode) (k : Bytes) (xs ys zs : List ℕ) (l b c : ℕ)
    → IsPlace heap k xs l b ys
    → IsPlace heap k ys l c zs
    → IsPlace heap k xs l c zs
beyond heap k xs ys zs l b c p q = record {
  linked = q.linked;
  sorted = q.sorted;
  high = q.high;
  same = q.same ∙ p.same;
  short = omega (arith, p.short, q.short);
}

no_next :
    (heap : ℕ → SkipNode) (k : Bytes) (l : ℕ) (xs : List ℕ)
    → next_at heap l xs ≡ none
    → Stops heap k l xs
no_next heap k l xs e b e' = ground (arith, e, e')

advance-none :
    (n : ℕ) (heap : ℕ → SkipNode) (k : Bytes) (l a : ℕ)
    → (heap a).forward l ≡ none
    → advance n heap k l a ≡ a
unfolding advance
advance-none zero heap k l a e = refl
advance-none (suc n) heap k l a e = ground (arith, e)

stay :
    (heap : ℕ → SkipNode) (k : Bytes) (l a b : ℕ) (xs : List ℕ)
    → IsLinked heap a xs
    → IsSorted heap xs
    → l < (heap a).level
    → b ≡ a
    → Stops heap k l xs
    → (ys : List ℕ) × IsPlace heap k xs l b ys × Stops heap k l ys × Leads heap k l a xs b ys
stay heap k l a b xs n s h e stops = (
  xs,
  subst (λ x. IsPlace heap k xs l x xs) (sym e) (here heap k l a xs n s h),
  stops,
  subst (λ x. Leads heap k l a xs x xs) (sym e) (λ j below. refl),
)

-- As many rounds as there are nodes are enough for the inner loop.
pub advance_lem :
    (fuel : ℕ) (heap : ℕ → SkipNode) (k : Bytes) (l a : ℕ) (xs : List ℕ)
    → length xs ≤ fuel
    → IsLinked heap a xs
    → IsSorted heap xs
    → l < (heap a).level
    → (ys : List ℕ) × IsPlace heap k xs l (advance fuel heap k l a) ys
      × Stops heap k l ys
      × Leads heap k l a xs (advance fuel heap k l a) ys
unfolding advance
advance_lem zero heap k l a [] le n s h = ([], here heap k l a [] n s h, λ b e. cc, λ j below. refl)
advance_lem zero heap k l a (b ∷ xs) le n s h = absurd (ground (arith, le))
advance_lem (suc fuel) heap k l a xs le n s h = elim (Option-cases (next_at heap l xs)) [
  | inl e ↦
      let stays = advance-none (suc fuel) heap k l a (linked-forward heap l a xs n h ∙ e) in
      stay heap k l a (advance (suc fuel) heap k l a) xs n s h stays (no_next heap k l xs e)
  | inr (b, e) ↦ elim (Bool-cases (bytes_lt (heap b).key k)) [
    | inl lt ↦
        let (ys, p, short, leads) = step heap k l a b xs n s e lt in
        let (zs, q, stops, leads') =
          advance_lem fuel heap k l b ys (omega (arith, le, short)) p.linked p.sorted p.high in
        let moved : advance (suc fuel) heap k l a ≡ advance fuel heap k l b =
          ground (arith, linked-forward heap l a xs n h, e, lt) in
        (
          zs,
          subst (λ x. IsPlace heap k xs l x zs) (sym moved)
              (beyond heap k xs ys zs l b (advance fuel heap k l b) p q),
          stops,
          subst (λ x. Leads heap k l a xs x zs) (sym moved)
              (λ j below. leads a j below ∙ leads' j below),
        )
    | inr ge ↦
        let stays : advance (suc fuel) heap k l a ≡ a =
          ground (arith, linked-forward heap l a xs n h, e, ge) in
        stay heap k l a (advance (suc fuel) heap k l a) xs n s h stays
          (λ c e'. ground (arith, e, e', ge))
  ]
]
