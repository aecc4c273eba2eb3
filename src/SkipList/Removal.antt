-- ===== src/SkipList/Removal.antt =====
-- The list of nodes without the node of a key, and the levels in use after it is gone.
use raft_kvstorage.Common.{
  ℕ, zero, suc, ◌<◌, ◌≤◌, ◌≡◌, refl, sym, subst, ◌∙◌, true, false, inl, inr, Bool-cases,
  Option-cases, List, [], ◌∷◌, ◌++◌, All, none, some, Bytes, bytes_eq, bytes_eq_iff, ltb,
  if◌then◌else◌, arith,
}
use raft_kvstorage.SkipList.{SkipNode, bytes_lt, head, is_at, shrink}
use raft_kvstorage.SkipList.Order.{bytes_lt_antisym, bytes_lt_other}
use raft_kvstorage.SkipList.Chain.{next_at, rest, IsLinked, AllAbove, IsSorted, AllMade}
use raft_kvstorage.SkipList.Search.{node_with, linked-forward}
use raft_kvstorage.SkipList.Find.{none_above}
use raft_kvstorage.SkipList.Splice.{Apart}
use raft_kvstorage.Table.{bytes_eq_other}

pub All-every {ℓ} : (P : ℕ → Type ℓ) (xs : List ℕ) → ((x : ℕ) → P x) → All P xs
All-every P [] f = tt
All-every P (x ∷ xs) f = (f x, All-every P xs f)

-- The node of the key is the first of the rest.
pub rest-node_with :
    (h : ℕ → SkipNode) (k : Bytes) (a : ℕ) (xs : List ℕ)
    → IsSorted h xs
    → node_with h k xs ≡ some a
    → (qs : List ℕ) × (rest h k xs ≡ a ∷ qs) × ((h a).key ≡ k)
rest-node_with h k a [] s e = cc
rest-node_with h k a (x ∷ xs) s e = elim (Bool-cases (bytes_lt (h x).key k)) [
  | inl lt ↦
      let other = bytes_eq_other (h x).key k (bytes_lt_other (h x).key k lt) in
      let (qs, r, same) = rest-node_with h k a xs s.1 (ground (arith, other, e)) in
      (qs, ground (arith, lt, r), same)
  | inr ge ↦ elim (Bool-cases (bytes_eq (h x).key k)) [
    | inl same ↦
        let here : x ≡ a = ground (arith, same, e) in
        (xs, ground (arith, ge, here), ground (arith, here, (bytes_eq_iff (h x).key k).0 same))
    | inr other ↦ elim (Bool-cases (bytes_lt k (h x).key)) [
      | inl gt ↦ absurd (ground (arith, other, e, none_above h k (h x).key xs s.0 gt))
      | inr le ↦
          absurd (
            ground
              (arith, other, (bytes_eq_iff (h x).key k).1 (bytes_lt_antisym (h x).key k ge le)))
    ]
  ]
]

pub IsLinked-right :
    (h : ℕ → SkipNode) (b a : ℕ) (ps qs : List ℕ) → IsLinked h b (ps ++ a ∷ qs) → IsLinked h a qs
IsLinked-right h b a [] qs l = l.2
IsLinked-right h b a (x ∷ ps) qs l = IsLinked-right h x a ps qs l.2

pub IsSorted-right : (h : ℕ → SkipNode) (ps qs : List ℕ) → IsSorted h (ps ++ qs) → IsSorted h qs
IsSorted-right h [] qs s = s
IsSorted-right h (x ∷ ps) qs s = IsSorted-right h ps qs s.1

AllAbove-without :
    (h : ℕ → SkipNode) (k : Bytes) (a : ℕ) (ps qs : List ℕ)
    → AllAbove h k (ps ++ a ∷ qs)
    → AllAbove h k (ps ++ qs)
AllAbove-without h k a [] qs s = s.1
AllAbove-without h k a (x ∷ ps) qs s = (s.0, AllAbove-without h k a ps qs s.1)

pub IsSorted-without :
    (h : ℕ → SkipNode) (a : ℕ) (ps qs : List ℕ) → IsSorted h (ps ++ a ∷ qs) → IsSorted h (ps ++ qs)
IsSorted-without h a [] qs s = s.1
IsSorted-without h a (x ∷ ps) qs s =
    (AllAbove-without h (h x).key a ps qs s.0, IsSorted-without h a ps qs s.1)

pub AllMade-node :
    (h : ℕ → SkipNode) (fresh n a : ℕ) (ps qs : List ℕ)
    → AllMade h fresh n (ps ++ a ∷ qs)
    → (0 < a) × ((h a).level ≤ n)
AllMade-node h fresh n a [] qs m = (m.0, m.2)
AllMade-node h fresh n a (x ∷ ps) qs m = AllMade-node h fresh n a ps qs m.3

pub AllMade-without :
    (h : ℕ → SkipNode) (fresh n a : ℕ) (ps qs : List ℕ)
    → AllMade h fresh n (ps ++ a ∷ qs)
    → AllMade h fresh n (ps ++ qs)
AllMade-without h fresh n a [] qs m = m.3
AllMade-without h fresh n a (x ∷ ps) qs m = (m.0, m.1, m.2, AllMade-without h fresh n a ps qs m.3)

none_with : (h : ℕ → SkipNode) (k : Bytes) (qs : List ℕ) → AllAbove h k qs → node_with h k qs ≡ none
none_with h k [] s = refl
none_with h k (x ∷ qs) s =
    let other = bytes_eq_other (h x).key k (λ e. bytes_lt_other k (h x).key s.0 (sym e)) in
    ground (arith, other, none_with h k qs s.1)

-- Without the node of `k` the other keys have the nodes that they had.
pub node_with-without :
    (h : ℕ → SkipNode) (a : ℕ) (k' : Bytes) (ps qs : List ℕ)
    → All (λ x. bytes_lt (h x).key (h a).key ≡ true) ps
    → AllAbove h (h a).key qs
    → node_with h k' (ps ++ qs)
      ≡ (if bytes_eq (h a).key k' then none else node_with h k' (ps ++ a ∷ qs))
node_with-without h a k' [] qs below above = elim (Bool-cases (bytes_eq (h a).key k')) [
  | inl same ↦
      let gone = none_with h (h a).key qs above in
      let gone' = subst (λ y. node_with h y qs ≡ none) ((bytes_eq_iff (h a).key k').0 same) gone in
      ground (arith, same, gone')
  | inr other ↦ ground (arith, other)
]
node_with-without h a k' (x ∷ ps) qs below above = ground (
  arith,
  node_with-without h a k' ps qs below.1 above,
  bytes_lt_other (h x).key (h a).key below.0,
  bytes_eq_iff (h x).key k',
  bytes_eq_iff (h a).key k',
)

pub is_at-next_at :
    (h : ℕ → SkipNode) (a l : ℕ) (qs : List ℕ) → Apart a qs → is_at a (next_at h l qs) ≡ false
is_at-next_at h a l [] d = refl
is_at-next_at h a l (x ∷ qs) d = ground (arith, d.0, is_at-next_at h a l qs d.1)

lower :
    (h : ℕ → SkipNode) (fresh n l : ℕ) (xs : List ℕ)
    → AllMade h fresh n xs
    → next_at h l xs ≡ none
    → AllMade h fresh l xs
lower h fresh n l [] m e = tt
lower h fresh n l (x ∷ xs) m e =
    (m.0, m.1, ground (arith, e), lower h fresh n l xs m.3 (ground (arith, e)))

-- Only levels without nodes go out of use.
pub shrink_lem :
    (n : ℕ) (h : ℕ → SkipNode) (fresh : ℕ) (xs : List ℕ)
    → 0 < n
    → n ≤ (h head).level
    → IsLinked h head xs
    → AllMade h fresh n xs
    → (0 < shrink h n) × (shrink h n ≤ n) × AllMade h fresh (shrink h n) xs
unfolding shrink
shrink_lem zero h fresh xs pos le n m = elim pos [ ]
shrink_lem (suc l) h fresh xs pos le n m = elim (Option-cases ((h head).forward l)) [
  | inr (a, e) ↦ rw (e, shrink) (pos, omega arith, m)
  | inl e ↦ elim (Bool-cases (ltb 0 l)) [
    | inl more ↦
        let empty = sym (linked-forward h l head xs n (omega (arith, le))) ∙ e in
        let (p, q, r) =
          shrink_lem l h fresh xs (ground (arith, more)) (omega (arith, le)) n
            (lower h fresh (suc l) l xs m empty) in
        rw (e, more, shrink) (p, omega (arith, q), r)
    | inr last ↦
        let one : suc l ≡ 1 = ground (arith, last) in
        rw (e, last, shrink) (omega arith, omega arith, subst (λ y. AllMade h fresh y xs) one m)
  ]
]
