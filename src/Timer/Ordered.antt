-- ===== src/Timer/Ordered.antt =====
-- The order of the manager's set, which `find` relies on.
use raft_kvstorage.Common.{
  ℕ, ◌≡◌, ◌≢◌, refl, subst, Bool, true, false, not, ◌&&◌, ◌||◌, inl, inr, Bool-cases, List, [], ◌∷◌,
  All, ◌==◌, arith,
}
use raft_kvstorage.Timer.{Timer, set_timer, before, contains, insert_timer, erase}

-- The timer's address is in the list.
unfoldable pub listed : ℕ → List ℕ → Bool
listed a [] = false
listed a (b ∷ bs) = let rest = listed a bs in a == b || rest

abbrev pub IsOrdered : (ℕ → Timer) → List ℕ → Type 0
IsOrdered heap [] = Unit {0}
IsOrdered heap (a ∷ bs) = All (λ b. before heap a b ≡ true) bs × IsOrdered heap bs

pub before_irrefl : (heap : ℕ → Timer) (a : ℕ) → before heap a a ≡ false
unfolding before
before_irrefl heap a = ground arith

before_trans :
    (heap : ℕ → Timer) (a b c : ℕ)
    → before heap a b ≡ true
    → before heap b c ≡ true
    → before heap a c ≡ true
unfolding before
before_trans heap a b c p q = ground (arith, p, q)

before_total :
    (heap : ℕ → Timer) (a b : ℕ) → a ≢ b → before heap a b ≡ false → before heap b a ≡ true
unfolding before
before_total heap a b ne p = ground (arith, p)

before_same :
    (heap : ℕ → Timer) (a b : ℕ) → before heap a b ≡ false → before heap b a ≡ false → a ≡ b
unfolding before
before_same heap a b p q = ground (arith, p, q)

pub listed-insert_timer :
    (heap : ℕ → Timer) (x a : ℕ) (bs : List ℕ)
    → listed x (insert_timer heap a bs) ≡ (x == a || listed x bs)
unfolding listed insert_timer
listed-insert_timer heap x a [] = refl
listed-insert_timer heap x a (b ∷ bs) = ground (arith, listed-insert_timer heap x a bs)

pub listed-erase : (x a : ℕ) (bs : List ℕ) → listed x (erase a bs) ≡ (not (a == x) && listed x bs)
unfolding listed erase
listed-erase x a [] = ground arith
listed-erase x a (b ∷ bs) = ground (arith, listed-erase x a bs)

pub All-listed {ℓ} : (P : ℕ → Type ℓ) (a : ℕ) (bs : List ℕ) → All P bs → listed a bs ≡ true → P a
unfolding listed
All-listed P a [] h e = absurd cc
All-listed P a (b ∷ bs) h e = elim (Bool-cases (a == b)) [
  | inl eq ↦ subst P (same a b eq) h.0
  | inr ne ↦ All-listed P a bs h.1 (rw ne at e)
]
  where
    same : (a b : ℕ) → (a == b) ≡ true → b ≡ a
    same a b eq = ground (arith, eq)

found :
    (heap : ℕ → Timer) (a b : ℕ) (bs : List ℕ)
    → All (λ c. before heap b c ≡ true) bs
    → contains heap a bs ≡ listed a bs
    → contains heap a (b ∷ bs) ≡ listed a (b ∷ bs)
unfolding contains listed
found heap a b bs h rest = elim (Bool-cases (before heap b a)) [
  | inl lt ↦ ground (arith, lt, rest, not_itself a b lt)
  | inr ge ↦ elim (Bool-cases (before heap a b)) [
    | inl lt ↦ ground (arith, ge, lt, before_irrefl heap a, not_behind ge, not_equal a b lt)
    | inr le ↦ ground (arith, ge, le, before_same heap a b le ge)
  ]
]
  where
    not_itself : (a b : ℕ) → before heap b a ≡ true → a ≢ b
    not_itself a b lt eq = cc (before_irrefl heap a, lt, eq)

    not_equal : (a b : ℕ) → before heap a b ≡ true → a ≢ b
    not_equal a b lt eq = cc (before_irrefl heap a, lt, eq)

    clash : before heap b a ≡ false → before heap b a ≡ true → ⊥
    clash p q = cc

    not_behind : before heap b a ≡ false → listed a bs ≡ false
    not_behind ge = elim (Bool-cases (listed a bs)) [
      | inl inside ↦ absurd (clash ge (All-listed (λ c. before heap b c ≡ true) a bs h inside))
      | inr out ↦ out
    ]

-- In a set in order, `find` finds the timers of the set.
pub contains-listed :
    (heap : ℕ → Timer) (a : ℕ) (bs : List ℕ) → IsOrdered heap bs → contains heap a bs ≡ listed a bs
unfolding contains listed
contains-listed heap a [] h = refl
contains-listed heap a (b ∷ bs) h = found heap a b bs h.0 (contains-listed heap a bs h.1)

All-erase {ℓ} : (P : ℕ → Type ℓ) (a : ℕ) (bs : List ℕ) → All P bs → All P (erase a bs)
unfolding erase
All-erase P a [] h = tt
All-erase P a (b ∷ bs) h = elim (Bool-cases (a == b)) [
  | inl eq ↦ rw eq (All-erase P a bs h.1)
  | inr ne ↦ rw ne (h.0, All-erase P a bs h.1)
]

pub erase-IsOrdered :
    (heap : ℕ → Timer) (a : ℕ) (bs : List ℕ) → IsOrdered heap bs → IsOrdered heap (erase a bs)
unfolding erase
erase-IsOrdered heap a [] h = tt
erase-IsOrdered heap a (b ∷ bs) h = elim (Bool-cases (a == b)) [
  | inl eq ↦ rw eq (erase-IsOrdered heap a bs h.1)
  | inr ne ↦ rw ne (All-erase (λ c. before heap b c ≡ true) a bs h.0, erase-IsOrdered heap a bs h.1)
]

All-insert_timer {ℓ} :
    (P : ℕ → Type ℓ) (heap : ℕ → Timer) (a : ℕ) (bs : List ℕ)
    → P a
    → All P bs
    → All P (insert_timer heap a bs)
unfolding insert_timer
All-insert_timer P heap a [] p h = (p, tt)
All-insert_timer P heap a (b ∷ bs) p h = elim (Bool-cases (a == b)) [
  | inl eq ↦ rw eq h
  | inr ne ↦ elim (Bool-cases (before heap a b)) [
    | inl lt ↦ rw ne (rw lt (p, h))
    | inr ge ↦ rw ne (rw ge (h.0, All-insert_timer P heap a bs p h.1))
  ]
]

All-before :
    (heap : ℕ → Timer) (a b : ℕ) (bs : List ℕ)
    → before heap a b ≡ true
    → All (λ c. before heap b c ≡ true) bs
    → All (λ c. before heap a c ≡ true) bs
All-before heap a b [] lt h = tt
All-before heap a b (c ∷ bs) lt h = (before_trans heap a b c lt h.0, All-before heap a b bs lt h.1)

pub insert_timer-IsOrdered :
    (heap : ℕ → Timer) (a : ℕ) (bs : List ℕ)
    → IsOrdered heap bs
    → IsOrdered heap (insert_timer heap a bs)
unfolding insert_timer
insert_timer-IsOrdered heap a [] h = (tt, tt)
insert_timer-IsOrdered heap a (b ∷ bs) h = elim (Bool-cases (a == b)) [
  | inl eq ↦ rw eq h
  | inr ne ↦ elim (Bool-cases (before heap a b)) [
    | inl lt ↦ rw ne (rw lt ((lt, All-before heap a b bs lt h.0), h))
    | inr ge ↦ rw ne (
        rw ge (
          All-insert_timer (λ c. before heap b c ≡ true) heap a bs
              (before_total heap a b (apart a b ne) ge) h.0,
          insert_timer-IsOrdered heap a bs h.1,
        ))
  ]
]
  where
    apart : (a b : ℕ) → (a == b) ≡ false → a ≢ b
    apart a b ne eq = ground (arith, ne, eq)

All-same :
    (heap heap' : ℕ → Timer) (a : ℕ) (bs : List ℕ)
    → (heap' a).next ≡ (heap a).next
    → All (λ b. (heap' b).next ≡ (heap b).next) bs
    → All (λ b. before heap a b ≡ true) bs
    → All (λ b. before heap' a b ≡ true) bs
unfolding before
All-same heap heap' a [] e t h = tt
All-same heap heap' a (b ∷ bs) e t h =
    (ground (arith, e, t.0, h.0), All-same heap heap' a bs e t.1 h.1)

-- The order depends on the times of the timers of the set alone.
pub times-IsOrdered :
    (heap heap' : ℕ → Timer) (bs : List ℕ)
    → All (λ b. (heap' b).next ≡ (heap b).next) bs
    → IsOrdered heap bs
    → IsOrdered heap' bs
times-IsOrdered heap heap' [] t h = tt
times-IsOrdered heap heap' (b ∷ bs) t h =
    (All-same heap heap' b bs t.0 t.1 h.0, times-IsOrdered heap heap' bs t.1 h.1)

-- A timer outside the set may change.
pub set_timer-IsOrdered :
    (heap : ℕ → Timer) (a : ℕ) (u : Timer) (bs : List ℕ)
    → listed a bs ≡ false
    → IsOrdered heap bs
    → IsOrdered (set_timer a u heap) bs
unfolding set_timer listed
set_timer-IsOrdered heap a u bs out h =
    times-IsOrdered heap (set_timer a u heap) bs (unchanged bs out) h
  where
    unchanged :
        (cs : List ℕ)
        → listed a cs ≡ false
        → All (λ b. (set_timer a u heap b).next ≡ (heap b).next) cs
    unchanged [] out = tt
    unchanged (c ∷ cs) out = (ground (arith, out), unchanged cs (ground (arith, out)))
