-- ===== src/Raft/Append/Rollback.antt =====
-- The search for the first entry of a term, by which _L_appendEntries refuses a mismatch.
use raft_kvstorage.Common.{
  ℕ, zero, suc, ◌+◌, ◌-◌, ◌≤◌, ◌<◌, ◌≡◌, ◌≢◌, ◌⊎◌, ◌∙◌, refl, inl, inr, Option, none, some, arith,
  true, false, ap, sym, Bool-cases,
}
use native.Mathlib.Decide.{dec_lt}
use raft_kvstorage.Raft.Node.{Node, Outcome, done, threw, undefined, log_term}
use raft_kvstorage.Raft.Log.{last_log_index_lem}
use raft_kvstorage.Raft.Log.Lookup.{log_at-some}
use raft_kvstorage.Raft.Append.{same_term, rollback, rollback_index}
use raft_kvstorage.Raft.Append.Round.{HasLog}

abbrev pub IsDone {ℓ} : {A : Type ℓ} → Outcome A → Type 0
IsDone (done a) = Unit
IsDone threw = ⊥
IsDone undefined = ⊥

IsDone-value {ℓ} : {A : Type ℓ} (o : Outcome A) → IsDone o → (a : A) × (o ≡ done a)
IsDone-value (done a) h = (a, refl)
IsDone-value threw h = absurd h
IsDone-value undefined h = absurd h

log_term-IsDone : (s : Node) (i : ℕ) → HasLog s → IsDone (log_term s i)
unfolding log_term
log_term-IsDone s i h = ground (arith, log_at-some s i h, last_log_index_lem s h)

-- The term at any index is read without a fault.
pub log_term-done : (s : Node) (i : ℕ) → HasLog s → (t : Option ℕ) × (log_term s i ≡ done t)
log_term-done s i h = IsDone-value (log_term s i) (log_term-IsDone s i h)

same_term-eq : (a b : Option ℕ) → same_term a b ≡ true → a ≡ b
unfolding same_term
same_term-eq none none h = refl
same_term-eq none (some b) h = cc
same_term-eq (some a) none h = cc
same_term-eq (some a) (some b) h = ground arith

same_term_refl : (a : Option ℕ) → same_term a a ≡ true
unfolding same_term
same_term_refl none = refl
same_term_refl (some a) = ground arith

-- `n` is where a search from `prev` down to the last snapshot finds the start of the run of entries
-- that have the term of `prev`; `prev` itself, where all of them have it.
pub record IsStart (s : Node) (prev n : ℕ) : Type 0 where
  pub below : n ≤ prev
  pub same : (k : ℕ) → n ≤ k → k ≤ prev → log_term s k ≡ log_term s prev
  pub first :
      ((n ≡ prev)
        × ((k : ℕ) → s.last_snapshot_index ≤ k → k ≤ prev → log_term s k ≡ log_term s prev))
      ⊎ ((s.last_snapshot_index < n) × (log_term s (n - 1) ≢ log_term s prev))

-- Another term at `index` puts `index` below the run.
run-below :
    (s : Node) (prev index : ℕ) (t u : Option ℕ)
    → log_term s prev ≡ done t
    → log_term s index ≡ done u
    → same_term u t ≡ false
    → index ≤ prev
    → index < prev
run-below s prev index t u e got ne le = elim (dec_lt index prev) [
  | yes lt ↦ lt
  | no ge ↦ absurd (clash (rw (eq ge) got))
]
  where
    eq : ¬ (index < prev) → prev ≡ index
    eq ge = omega arith

    clash : log_term s prev ≡ done u → ⊥
    clash q = cc (same_term_refl u, e, q, ne)

other_terms :
    (s : Node) (prev index : ℕ) (t u : Option ℕ)
    → log_term s prev ≡ done t
    → log_term s index ≡ done u
    → same_term u t ≡ false
    → log_term s index ≢ log_term s prev
other_terms s prev index t u e got ne q = cc (same_term_refl u, e, got, q, ne)

-- The loop looks at the indices from `last_snapshot_index + rounds - 1` down; those above have the
-- term `t`.
abbrev Passed : Node → ℕ → Option ℕ → ℕ → Type 0
Passed s prev t rounds =
    (k : ℕ) → s.last_snapshot_index + rounds ≤ k → k ≤ prev → log_term s k ≡ done t

pass_one :
    (s : Node) (prev index rounds : ℕ) (t : Option ℕ)
    → log_term s index ≡ done t
    → index ≡ s.last_snapshot_index + rounds
    → Passed s prev t (suc rounds)
    → Passed s prev t rounds
pass_one s prev index rounds t got at run k lo hi = elim (dec_lt index k) [
  | yes above ↦ run k (omega arith) hi
  | no here ↦ rw (at_index here) got
]
  where
    at_index : ¬ (index < k) → k ≡ index
    at_index here = omega arith

-- The loop reads no slot outside the deque, and stops at that start.
rollback-IsStart :
    (s : Node) (prev : ℕ) (t : Option ℕ) (rounds index : ℕ)
    → HasLog s
    → log_term s prev ≡ done t
    → index ≤ prev
    → (0 < rounds → index + 1 ≡ s.last_snapshot_index + rounds)
    → Passed s prev t rounds
    → (n : ℕ) × (rollback s prev t rounds index ≡ done n) × IsStart s prev n
unfolding rollback
rollback-IsStart s prev t zero index h e le at run = (
  prev,
  refl,
  record {
    below = omega arith;
    same = λ k lo hi. ap (log_term s) {x = k} {y = prev} (omega arith);
    first = inl (refl, λ k lo hi. run k (omega arith) hi ∙ sym e);
  },
)
rollback-IsStart s prev t (suc rounds) index h e le at run =
    let (u, got) = log_term-done s index h in
    let place : index ≡ s.last_snapshot_index + rounds = omega (arith, at (omega arith)) in
    elim (Bool-cases (same_term u t)) [
      | inl eq ↦
          rw (got, eq, rollback)
            (rollback-IsStart s prev t rounds (index - 1) h e (omega arith)
              (λ pos. omega (arith, place))
              (pass_one s prev index rounds t (rw (same_term-eq u t eq) at got) place run))
      | inr ne ↦ (
        index + 1,
        rw (got, ne, rollback),
        record {
          below = omega (arith, run-below s prev index t u e got ne le);
          same = λ k lo hi. run k (omega (arith, place)) hi ∙ sym e;
          first = inr (
            omega (arith, place),
            λ q.
                other_terms s prev index t u e got ne
                  (ap (log_term s) {x = index} {y = index + 1 - 1} (omega arith) ∙ q),
          );
        },
      )
    ]

pub rollback_index-IsStart :
    (s : Node) (prev : ℕ) → HasLog s → (n : ℕ) × (rollback_index s prev ≡ done n) × IsStart s prev n
unfolding rollback_index
rollback_index-IsStart s prev h =
    let (t, got) = log_term-done s prev h in
    rw (got, rollback_index)
      (rollback-IsStart s prev t (prev + 1 - s.last_snapshot_index) prev h got (omega arith)
        (λ pos. omega arith) (λ k lo hi. absurd (omega arith)))
