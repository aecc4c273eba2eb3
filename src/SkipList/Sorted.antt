-- ===== src/SkipList/Sorted.antt =====
-- The order of the keys, and which nodes are different, before and after a new node has come in.
use raft_kvstorage.Common.{
  ℕ, ◌+◌, ◌<◌, ◌≤◌, ◌≡◌, ◌≢◌, refl, sym, ap, true, inl, inr, Bool-cases, List, [], ◌∷◌, ◌++◌, All,
  none, some, Bytes, bytes_eq, bytes_eq_iff, ltb, if◌then◌else◌, arith,
}
use raft_kvstorage.SkipList.{SkipNode, bytes_lt}
use raft_kvstorage.SkipList.Order.{bytes_lt_trans, bytes_lt_antisym, bytes_lt_other}
use raft_kvstorage.SkipList.Chain.{last_at, low, rest, AllAbove, IsSorted, AllMade}
use raft_kvstorage.SkipList.Search.{node_with}
use raft_kvstorage.SkipList.Splice.{Apart, Distinct}

pub low-append-rest : (h : ℕ → SkipNode) (k : Bytes) (xs : List ℕ) → low h k xs ++ rest h k xs ≡ xs
low-append-rest h k [] = refl
low-append-rest h k (x ∷ xs) = ground (arith, low-append-rest h k xs)

pub AllBelow-low :
    (h : ℕ → SkipNode) (k : Bytes) (xs : List ℕ)
    → All (λ x. bytes_lt (h x).key k ≡ true) (low h k xs)
AllBelow-low h k [] = tt
AllBelow-low h k (x ∷ xs) = ground (arith, AllBelow-low h k xs)

AllAbove-trans :
    (h : ℕ → SkipNode) (k k' : Bytes) (xs : List ℕ)
    → bytes_lt k k' ≡ true
    → AllAbove h k' xs
    → AllAbove h k xs
AllAbove-trans h k k' [] lt s = tt
AllAbove-trans h k k' (x ∷ xs) lt s =
    (bytes_lt_trans k k' (h x).key lt s.0, AllAbove-trans h k k' xs lt s.1)

-- Where no node has the key, the rest has greater ones.
pub AllAbove-rest :
    (h : ℕ → SkipNode) (k : Bytes) (xs : List ℕ)
    → IsSorted h xs
    → node_with h k xs ≡ none
    → AllAbove h k (rest h k xs)
AllAbove-rest h k [] s e = tt
AllAbove-rest h k (x ∷ xs) s e = elim (Bool-cases (bytes_lt (h x).key k)) [
  | inl lt ↦ rw lt (AllAbove-rest h k xs s.1 (ground (arith, e)))
  | inr ge ↦ elim (Bool-cases (bytes_lt k (h x).key)) [
    | inl gt ↦ rw ge (gt, AllAbove-trans h k (h x).key xs gt s.0)
    | inr le ↦
        let same = (bytes_eq_iff (h x).key k).1 (bytes_lt_antisym (h x).key k ge le) in
        absurd (ground (arith, e, same))
  ]
]

Apart-AllAbove : (h : ℕ → SkipNode) (a : ℕ) (xs : List ℕ) → AllAbove h (h a).key xs → Apart a xs
Apart-AllAbove h a [] s = tt
Apart-AllAbove h a (x ∷ xs) s = (
  λ e. bytes_lt_other (h a).key (h x).key s.0 (ap (λ y. (h y).key) (sym e)),
  Apart-AllAbove h a xs s.1,
)

pub Distinct-IsSorted : (h : ℕ → SkipNode) (xs : List ℕ) → IsSorted h xs → Distinct xs
Distinct-IsSorted h [] s = tt
Distinct-IsSorted h (x ∷ xs) s = (Apart-AllAbove h x xs s.0, Distinct-IsSorted h xs s.1)

pub All-append_parts {ℓ} :
    (P : ℕ → Type ℓ) (xs ys : List ℕ) → All P (xs ++ ys) → All P xs × All P ys
All-append_parts P [] ys h = (tt, h)
All-append_parts P (x ∷ xs) ys h = let (hx, hy) = All-append_parts P xs ys h.1 in ((h.0, hx), hy)

pub Distinct-append :
    (xs ys : List ℕ) → Distinct (xs ++ ys) → Distinct xs × All (λ x. Apart x ys) xs
Distinct-append [] ys d = (tt, tt)
Distinct-append (x ∷ xs) ys d =
    let (hx, hy) = All-append_parts (λ y. y ≢ x) xs ys d.0 in
    let (dx, all) = Distinct-append xs ys d.1 in ((hx, dx), (hy, all))

pub Apart-last_at :
    (h : ℕ → SkipNode) (l b : ℕ) (ps qs : List ℕ)
    → Apart b qs
    → All (λ x. Apart x qs) ps
    → Apart (last_at h l b ps) qs
Apart-last_at h l b [] qs d all = d
Apart-last_at h l b (x ∷ ps) qs d all = elim (Bool-cases (ltb l (h x).level)) [
  | inl high ↦ rw high (Apart-last_at h l x ps qs all.0 all.1)
  | inr below ↦ rw below (Apart-last_at h l b ps qs d all.1)
]

pub AllMade-Apart :
    (h : ℕ → SkipNode) (fresh n : ℕ) (xs : List ℕ)
    → AllMade h fresh n xs
    → Apart 0 xs × Apart fresh xs
AllMade-Apart h fresh n [] m = (tt, tt)
AllMade-Apart h fresh n (x ∷ xs) m =
    let (d, d') = AllMade-Apart h fresh n xs m.3 in
    ((λ e. omega (arith, m.0, e), d), (λ e. omega (arith, m.1, e), d'))

-- A walk that meets the same nodes in two heaps.
pub AllAbove-same :
    (h h' : ℕ → SkipNode) (k : Bytes) (xs : List ℕ)
    → All (λ x. (h' x).key ≡ (h x).key) xs
    → AllAbove h k xs
    → AllAbove h' k xs
AllAbove-same h h' k [] e s = tt
AllAbove-same h h' k (x ∷ xs) e s = (rw e.0 s.0, AllAbove-same h h' k xs e.1 s.1)

pub IsSorted-same :
    (h h' : ℕ → SkipNode) (xs : List ℕ)
    → All (λ x. (h' x).key ≡ (h x).key) xs
    → IsSorted h xs
    → IsSorted h' xs
IsSorted-same h h' [] e s = tt
IsSorted-same h h' (x ∷ xs) e s =
    (rw e.0 (AllAbove-same h h' (h x).key xs e.1 s.0), IsSorted-same h h' xs e.1 s.1)

AllAbove-splice :
    (h : ℕ → SkipNode) (k : Bytes) (a : ℕ) (ps qs : List ℕ)
    → bytes_lt k (h a).key ≡ true
    → AllAbove h k (ps ++ qs)
    → AllAbove h k (ps ++ a ∷ qs)
AllAbove-splice h k a [] qs lt s = (lt, s)
AllAbove-splice h k a (x ∷ ps) qs lt s = (s.0, AllAbove-splice h k a ps qs lt s.1)

pub IsSorted-splice :
    (h : ℕ → SkipNode) (a : ℕ) (ps qs : List ℕ)
    → All (λ x. bytes_lt (h x).key (h a).key ≡ true) ps
    → AllAbove h (h a).key qs
    → IsSorted h (ps ++ qs)
    → IsSorted h (ps ++ a ∷ qs)
IsSorted-splice h a [] qs below above s = (above, s)
IsSorted-splice h a (x ∷ ps) qs below above s =
    (AllAbove-splice h (h x).key a ps qs below.0 s.0, IsSorted-splice h a ps qs below.1 above s.1)

pub AllMade-splice :
    (h h' : ℕ → SkipNode) (fresh n n' a : ℕ) (ps qs : List ℕ)
    → (0 < a) × (a < fresh + 1) × ((h' a).level ≤ n') × (n ≤ n')
    → All (λ x. (h' x).level ≡ (h x).level) (ps ++ qs)
    → AllMade h fresh n (ps ++ qs)
    → AllMade h' (fresh + 1) n' (ps ++ a ∷ qs)
AllMade-splice h h' fresh n n' a [] [] new e m = (new.0, new.1, new.2, tt)
AllMade-splice h h' fresh n n' a [] (x ∷ qs) new e m =
    let more = (AllMade-splice h h' fresh n n' a [] qs new e.1 m.3).3 in
    (new.0, new.1, new.2, (m.0, omega (arith, m.1), omega (arith, e.0, m.2, new.3), more))
AllMade-splice h h' fresh n n' a (x ∷ ps) qs new e m = (
  m.0,
  omega (arith, m.1),
  omega (arith, e.0, m.2, new.3),
  AllMade-splice h h' fresh n n' a ps qs new e.1 m.3,
)

pub node_with-splice :
    (h h' : ℕ → SkipNode) (a : ℕ) (k : Bytes) (ps qs : List ℕ)
    → All (λ x. (h' x).key ≡ (h x).key) (ps ++ qs)
    → All (λ x. bytes_lt (h x).key (h' a).key ≡ true) ps
    → node_with h' k (ps ++ a ∷ qs)
      ≡ (if bytes_eq (h' a).key k then some a else node_with h k (ps ++ qs))
node_with-splice h h' a k [] qs e below = rw (node_with-same h h' k qs e)
  where
    node_with-same :
        (h h' : ℕ → SkipNode) (k : Bytes) (xs : List ℕ)
        → All (λ x. (h' x).key ≡ (h x).key) xs
        → node_with h' k xs ≡ node_with h k xs
    node_with-same h h' k [] e = refl
    node_with-same h h' k (x ∷ xs) e = ground (arith, e.0, node_with-same h h' k xs e.1)
node_with-splice h h' a k (x ∷ ps) qs e below =
    let other = bytes_lt_other (h x).key (h' a).key below.0 in
    ground (
      arith,
      e.0,
      node_with-splice h h' a k ps qs e.1 below.1,
      other,
      bytes_eq_iff (h x).key k,
      bytes_eq_iff (h' a).key k,
    )

pub node_with-Apart :
    (h : ℕ → SkipNode) (k : Bytes) (c a : ℕ) (xs : List ℕ)
    → Apart c xs
    → node_with h k xs ≡ some a
    → a ≢ c
node_with-Apart h k c a [] d e = cc
node_with-Apart h k c a (x ∷ xs) d e = elim (Bool-cases (bytes_eq (h x).key k)) [
  | inl same ↦ λ e'. d.0 (ground (arith, same, e, e'))
  | inr other ↦ node_with-Apart h k c a xs d.1 (ground (arith, other, e))
]
