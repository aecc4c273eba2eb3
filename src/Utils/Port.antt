-- ===== src/Utils/Port.antt =====
-- What findAvailablePort finds, and what it hands back.
use native.Mathlib.Decide.{ℕ_discrete}
use raft_kvstorage.Common.{
  ℕ, zero, suc, ◌+◌, ◌%◌, ◌^◌, ◌<◌, ◌≤◌, ◌≡◌, ◌↔◌, inl, inr, sym, subst, Bool, true, false,
  Bool-cases, arith,
}
use raft_kvstorage.Utils.{count_ports, find_available_port}

-- `c` is the first counter from `counter` on whose port is available, or `n` rounds later.
abbrev IsFirst : (ℕ → Bool) → ℕ → ℕ → ℕ → ℕ → Type 0
IsFirst available port n counter c =
    (counter ≤ c)
    × (c ≤ counter + n)
    × (c < counter + n → available ((port + c) % 2 ^ 16) ≡ true)
    × ((k : ℕ) → counter ≤ k → k < c → available ((port + k) % 2 ^ 16) ≡ false)

count_ports-IsFirst :
    (available : ℕ → Bool) (port n counter : ℕ)
    → IsFirst available port n counter (count_ports available port n counter)
unfolding count_ports
count_ports-IsFirst available port zero counter =
    (omega arith, omega arith, λ lt. absurd (omega arith), λ k le lt. absurd (omega arith))
count_ports-IsFirst available port (suc n) counter =
    let (low, high, found, passed) = count_ports-IsFirst available port n (counter + 1) in
    elim (Bool-cases (available ((port + counter) % 2 ^ 16))) [
      | inl e ↦
          subst (IsFirst available port (suc n) counter) (sym (stops e))
            (omega arith, omega arith, λ lt. e, λ k le lt. absurd (omega arith))
      | inr ne ↦ subst (IsFirst available port (suc n) counter) (sym (goes_on ne)) (
        omega (arith, low),
        omega (arith, high),
        λ lt. found (omega (arith, lt)),
        λ k le lt. elim (ℕ_discrete k counter) [
          | yes e ↦ subst (λ x. available ((port + x) % 2 ^ 16) ≡ false) (sym e) ne
          | no other ↦ passed k (omega (arith, le, other)) lt
        ],
      )
    ]
  where
    stops :
        available ((port + counter) % 2 ^ 16) ≡ true
        → count_ports available port (suc n) counter ≡ counter
    stops e = ground (arith, e)

    goes_on :
        available ((port + counter) % 2 ^ 16) ≡ false
        → count_ports available port (suc n) counter ≡ count_ports available port n (counter + 1)
    goes_on e = ground (arith, e)

-- The search says true exactly when one of the thirty ports from its argument on is available, but
-- it leaves its argument as it was, whichever port it found.
find_available_port_lem :
    (available : ℕ → Bool) (port : ℕ)
    → let (found, p) = find_available_port available port in
      (p ≡ port)
      × ((found ≡ true) ↔ ((k : ℕ) × (k < 30) × (available ((port + k) % 2 ^ 16) ≡ true)))
unfolding find_available_port
find_available_port_lem available port =
    let c = count_ports available port 30 0 in
    let (low, high, found, passed) = count_ports-IsFirst available port 30 0 in
    (
      ground arith,
      (
        λ e. let small : c < 30 = ground (arith, e) in (c, small, found small),
        λ h. let (k, lt, free) = h in ground (arith, passed k, free),
      ),
    )
