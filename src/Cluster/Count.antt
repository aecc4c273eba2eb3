-- ===== src/Cluster/Count.antt =====
-- Counting the nodes below `n` that pass a test.
use native.Mathlib.Decide.{ℕ_discrete}
use raft_kvstorage.Common.{
  ℕ, zero, suc, ◌+◌, ◌≤◌, ◌<◌, ◌≡◌, Bool, true, false, arith, if◌then◌else◌,
}

pub count : ℕ → (ℕ → Bool) → ℕ
count zero p = 0
count (suc n) p = (if p n then 1 else 0) + count n p

pub count_mono :
    (n : ℕ) (p q : ℕ → Bool) → ((v : ℕ) → p v ≡ true → q v ≡ true) → count n p ≤ count n q
unfolding count
count_mono zero p q h = omega arith
count_mono (suc n) p q h = ground (arith, h n, count_mono n p q h)

-- No node passes two tests that exclude each other.
pub count_disjoint :
    (n : ℕ) (p q : ℕ → Bool) → ((v : ℕ) → p v ≡ true → q v ≡ true → ⊥) → count n p + count n q ≤ n
unfolding count
count_disjoint zero p q h = omega arith
count_disjoint (suc n) p q h = ground (arith, h n, count_disjoint n p q h)

-- One more node passes.
pub count_more :
    (n : ℕ) (p q : ℕ → Bool) (j : ℕ)
    → j < n
    → p j ≡ false
    → q j ≡ true
    → ((v : ℕ) → p v ≡ true → q v ≡ true)
    → suc (count n p) ≤ count n q
unfolding count
count_more zero p q j lt pj qj h = absurd (omega arith)
count_more (suc n) p q j lt pj qj h = elim (ℕ_discrete j n) [
  | yes e ↦ ground (arith, count_mono n p q h, rw e at pj, rw e at qj)
  | no ne ↦ ground (arith, h n, count_more n p q j (omega arith) pj qj h)
]

-- A node that passes is counted.
pub count_pos : (n : ℕ) (p : ℕ → Bool) (j : ℕ) → j < n → p j ≡ true → 0 < count n p
unfolding count
count_pos zero p j lt pj = absurd (omega arith)
count_pos (suc n) p j lt pj = elim (ℕ_discrete j n) [
  | yes e ↦ ground (arith, rw e at pj)
  | no ne ↦ omega (arith, count_pos n p j (omega arith) pj)
]
