-- ===== src/SkipList/Splice.antt =====
-- The chains after a new node has come in between the nodes `ps` and the nodes `qs`.
use raft_kvstorage.Common.{
  ℕ, ◌<◌, ◌≡◌, ◌≢◌, refl, ◌∙◌, ◌&&◌, inl, inr, Bool-cases, subst, List, [], ◌∷◌, ◌++◌, All, some,
  ltb, ◌==◌, if◌then◌else◌, arith,
}
use raft_kvstorage.SkipList.{SkipNode}
use raft_kvstorage.SkipList.Chain.{next_at, last_at, IsLinked}
use raft_kvstorage.SkipList.Search.{linked-forward}

abbrev pub Apart : ℕ → List ℕ → Type 0
Apart a xs = All (λ x. x ≢ a) xs

abbrev pub Distinct : List ℕ → Type 0
Distinct [] = Unit {0}
Distinct (x ∷ xs) = Apart x xs × Distinct xs

pub last_at-Apart :
    (heap : ℕ → SkipNode) (l b c : ℕ) (xs : List ℕ) → b ≢ c → Apart c xs → last_at heap l b xs ≢ c
last_at-Apart heap l b c [] ne h = ne
last_at-Apart heap l b c (x ∷ xs) ne h = elim (Bool-cases (ltb l (heap x).level)) [
  | inl high ↦ λ e. last_at-Apart heap l x c xs h.0 h.1 (ground (arith, high, e))
  | inr below ↦ λ e. last_at-Apart heap l b c xs ne h.1 (ground (arith, below, e))
]

-- The pointer on level `l` of the last node of `ps` leads to the first of `qs`.
pub last_at-forward :
    (heap : ℕ → SkipNode) (l b c : ℕ) (ps qs : List ℕ)
    → (heap b).forward l ≡ next_at heap l (ps ++ qs)
    → IsLinked heap c (ps ++ qs)
    → (heap (last_at heap l b ps)).forward l ≡ next_at heap l qs
last_at-forward heap l b c [] qs e n = e
last_at-forward heap l b c (x ∷ ps) qs e n = elim (Bool-cases (ltb l (heap x).level)) [
  | inl high ↦ ground (
    arith,
    high,
    last_at-forward heap l x x ps qs (linked-forward heap l x (ps ++ qs) n.2 (ground (arith, high)))
        n.2,
  )
  | inr below ↦
      ground (arith, below, last_at-forward heap l b x ps qs (ground (arith, below, e)) n.2)
]

module _ (h h' : ℕ → SkipNode) (a n : ℕ) (pre : ℕ → ℕ)
    (levels : (x : ℕ) → x ≢ a → (h' x).level ≡ (h x).level) (level : (h' a).level ≡ n)
    (forwards : (x j : ℕ)
      → x ≢ a
      → (h' x).forward j ≡ (if ltb j n && x == pre j then some a else (h x).forward j))
    (forward : (j : ℕ) → j < n → (h' a).forward j ≡ (h (pre j)).forward j) where
  next_same : (j : ℕ) (xs : List ℕ) → Apart a xs → next_at h' j xs ≡ next_at h j xs
  next_same j [] d = refl
  next_same j (x ∷ xs) d = ground (arith, levels x d.0, next_same j xs d.1)

  next_new :
      (j b : ℕ) (ps qs : List ℕ)
      → Apart a ps
      → Apart a qs
      → Apart b ps
      → next_at h' j (ps ++ a ∷ qs)
        ≡ (if ltb j n && b == last_at h j b ps then some a else next_at h j (ps ++ qs))
  next_new j b [] qs d d' e = ground (arith, level, next_same j qs d')
  next_new j b (x ∷ ps) qs d d' e =
      ground (arith, levels x d.0, next_new j b ps qs d.1 d' e.1, last_at-Apart h j x b ps e.0 e.1)

  tail :
      (b : ℕ) (qs : List ℕ)
      → b ≢ a
      → Apart a qs
      → ((j : ℕ) → b ≢ pre j)
      → ((j : ℕ) → Apart (pre j) qs)
      → IsLinked h b qs
      → IsLinked h' b qs
  tail b [] ne d p ps l = λ j lt. ground (arith, forwards b j ne, p j, l j, levels b ne)
  tail b (x ∷ qs) ne d p ps l = (
    λ j lt. ground (arith, forwards b j ne, p j, l.0 j, levels b ne, next_same j (x ∷ qs) d),
    ground (arith, levels x d.0, l.1),
    tail x qs d.0 d.1 (λ j. (ps j).0) (λ j. (ps j).1) l.2,
  )

  new_node-IsLinked :
      (b : ℕ) (qs : List ℕ)
      → Apart a qs
      → ((j : ℕ) → Apart (pre j) qs)
      → IsLinked h b qs
      → ((j : ℕ) → j < n → (h (pre j)).forward j ≡ next_at h j qs)
      → IsLinked h' a qs
  new_node-IsLinked b [] d ps l leads = λ j lt. ground (arith, level, forward j, leads j)
  new_node-IsLinked b (x ∷ qs) d ps l leads = (
    λ j lt. ground (arith, level, forward j, leads j, next_same j (x ∷ qs) d),
    ground (arith, levels x d.0, l.1),
    tail x qs d.0 d.1 (λ j. (ps j).0) (λ j. (ps j).1) l.2,
  )

  pub splice :
      (b : ℕ) (cur : ℕ → ℕ) (ps qs : List ℕ)
      → 0 < n
      → b ≢ a
      → Apart a ps
      → Apart a qs
      → Apart b ps
      → Distinct ps
      → ((j : ℕ) → Apart (pre j) qs)
      → ((j : ℕ) → j < n → (h (pre j)).forward j ≡ next_at h j qs)
      → ((j : ℕ) → j < (h b).level → cur j ≡ b)
      → ((j : ℕ) → pre j ≡ last_at h j (cur j) ps)
      → IsLinked h b (ps ++ qs)
      → IsLinked h' b (ps ++ a ∷ qs)
  splice b cur [] qs pos ne da dq db dd dp leads here pres l = (
    λ j lt. ground (
      arith,
      levels b ne,
      forwards b j ne,
      here j,
      pres j,
      next_new j b [] qs da dq db,
      linked-forward h j b qs l,
    ),
    ground (arith, level),
    new_node-IsLinked b qs dq dp l leads,
  )
  splice b cur (x ∷ ps) qs pos ne da dq db dd dp leads here pres l = (
    λ j lt.
        let low : j < (h b).level = ground (arith, levels b ne) in
        let at : pre j ≡ last_at h j b (x ∷ ps) =
          subst (λ c. pre j ≡ last_at h j c (x ∷ ps)) (here j low) (pres j) in
        ground (arith, forwards b j ne, at, next_new j b (x ∷ ps) qs da dq db, l.0 j low),
    ground (arith, levels x da.0, l.1),
    splice x (λ j. if ltb j (h x).level then x else cur j) ps qs pos da.0 da.1 dq dd.0 dd.1 dp leads
        (λ j lt. ground arith) (λ j. pres j ∙ ground arith) l.2,
  )
