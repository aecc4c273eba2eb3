-- ===== src/SkipList/Chain.antt =====
-- What a skip list looks like: a list of nodes by key, and on each level the chain of those that
-- are high enough.
use raft_kvstorage.Common.{
  ℕ, ◌<◌, ◌≤◌, ◌≡◌, true, List, [], ◌∷◌, Option, none, some, Bytes, length, ltb, if◌then◌else◌,
}
use raft_kvstorage.SkipList.{SkipNode, SkipList, bytes_lt, head, max_level}

-- The first of the nodes that has a level `l`.
abbrev pub next_at : (ℕ → SkipNode) → ℕ → List ℕ → Option ℕ
next_at heap l [] = none
next_at heap l (a ∷ xs) = if ltb l (heap a).level then some a else next_at heap l xs

-- From `a` on, each node's forward pointers lead to the next nodes of their levels.
abbrev pub IsLinked : (ℕ → SkipNode) → ℕ → List ℕ → Type 0
IsLinked heap a [] = (l : ℕ) → l < (heap a).level → (heap a).forward l ≡ none
IsLinked heap a (b ∷ xs) =
    ((l : ℕ) → l < (heap a).level → (heap a).forward l ≡ next_at heap l (b ∷ xs))
    × (0 < (heap b).level)
    × IsLinked heap b xs

-- Every key is greater than `k`.
abbrev pub AllAbove : (ℕ → SkipNode) → Bytes → List ℕ → Type 0
AllAbove heap k [] = Unit {0}
AllAbove heap k (a ∷ xs) = (bytes_lt k (heap a).key ≡ true) × AllAbove heap k xs

abbrev pub IsSorted : (ℕ → SkipNode) → List ℕ → Type 0
IsSorted heap [] = Unit {0}
IsSorted heap (a ∷ xs) = AllAbove heap (heap a).key xs × IsSorted heap xs

-- The last of `a` and the nodes that has a level `l`, where `a` has one.
abbrev pub last_at : (ℕ → SkipNode) → ℕ → ℕ → List ℕ → ℕ
last_at heap l a [] = a
last_at heap l a (b ∷ xs) =
    if ltb l (heap b).level then last_at heap l b xs else last_at heap l a xs

-- The nodes with keys smaller than `k`, and the rest.
abbrev pub low : (ℕ → SkipNode) → Bytes → List ℕ → List ℕ
low heap k [] = []
low heap k (a ∷ xs) = if bytes_lt (heap a).key k then a ∷ low heap k xs else []

abbrev pub rest : (ℕ → SkipNode) → Bytes → List ℕ → List ℕ
rest heap k [] = []
rest heap k (a ∷ xs) = if bytes_lt (heap a).key k then rest heap k xs else a ∷ xs

-- Each address is one that was handed out, and no node has more levels than `n`.
abbrev pub AllMade : (ℕ → SkipNode) → ℕ → ℕ → List ℕ → Type 0
AllMade heap fresh n [] = Unit {0}
AllMade heap fresh n (a ∷ xs) =
    (0 < a) × (a < fresh) × ((heap a).level ≤ n) × AllMade heap fresh n xs

-- The list `xs` of nodes is what the skip list stands for.
pub record IsSkipList (s : SkipList) (xs : List ℕ) : Type 0 where
  pub linked : IsLinked s.heap head xs
  pub sorted : IsSorted s.heap xs
  pub made : AllMade s.heap s.fresh s.level_now xs
  pub begun : 0 < s.fresh
  pub counted : s.counter ≡ length xs
  pub head_level : (s.heap head).level ≡ max_level
  pub bottom : 0 < s.level_now
  pub top : s.level_now ≤ max_level
