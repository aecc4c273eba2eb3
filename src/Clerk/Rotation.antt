-- ===== src/Clerk/Rotation.antt =====
-- When the loops of a clerk end.
use native.Mathlib.Decide.{ℕ_discrete}
use native.Mathlib.Nat.{mod-eq_of_lt, mod_self}
use raft_kvstorage.Common.{
  ℕ, zero, suc, ◌+◌, ◌-◌, ◌%◌, ◌<◌, ◌≤◌, ◌≡◌, ◌⊎◌, inl, inr, refl, subst, Option, none, some, arith,
}
use raft_kvstorage.Operation.{Err, ok, wrong_leader, timeout, GetReply}
use raft_kvstorage.Clerk.{next_server, put_loop, get_loop}

-- The way from server `i` to server `j` in `d` steps, once around at most.
abbrev Away : ℕ → ℕ → ℕ → ℕ → Type 0
Away n i j d = (i + d ≡ j) ⊎ (i + d ≡ j + n)

next_server-cases :
    (n i : ℕ)
    → i < n
    → ((next_server n i ≡ i + 1) × (i + 1 < n)) ⊎ ((next_server n i ≡ 0) × (i + 1 ≡ n))
unfolding next_server
next_server-cases n i h = elim (ℕ_discrete (i + 1) n) [
  | yes e ↦ inr (subst (λ m. (i + 1) % m ≡ 0) e (mod_self (i + 1)), e)
  | no ne ↦ inl (mod-eq_of_lt (omega (arith, ne)), omega (arith, ne))
]

nearer :
    (n i j d : ℕ)
    → i < n
    → j < n
    → Away n i j (suc d)
    → (next_server n i < n) × Away n (next_server n i) j d
nearer n i j d h k w = elim (next_server-cases n i h) [
  | inl (e, small) ↦ ground (arith, e, small)
  | inr (e, full) ↦ ground (arith, e, full)
]

-- An answer to a put that ends the loop or sends it to the next server.
abbrev pub Passes : Option Err → Type 0
Passes o = (o ≡ none) ⊎ ((o ≡ some wrong_leader) ⊎ (o ≡ some ok))

reaches :
    (d fuel : ℕ) (ask : ℕ → ℕ → Option Err) (n round i j : ℕ)
    → i < n
    → j < n
    → Away n i j d
    → d < fuel
    → ((r : ℕ) → ask r j ≡ some ok)
    → ((r k : ℕ) → k < n → Passes (ask r k))
    → (k : ℕ) × (r : ℕ) × (put_loop fuel ask n round i ≡ some k) × (ask r k ≡ some ok)
unfolding put_loop
reaches d zero ask n round i j h k w lt good all = absurd (omega arith)
reaches zero (suc fuel) ask n round i j h k w lt good all =
    let same : j ≡ i = ground (arith, w) in
    let answered = subst (λ x. ask round x ≡ some ok) same (good round) in
    (i, round, ground (arith, answered), answered)
reaches (suc d) (suc fuel) ask n round i j h k w lt good all =
    let (inside, w') = nearer n i j d h k w in
    let (found, r, e, a) =
      reaches d fuel ask n (round + 1) (next_server n i) j inside k w' (omega arith) good all in
    elim (all round i h) [
      | inl none_now ↦ (found, r, ground (arith, none_now, e), a)
      | inr (inl wrong) ↦ (found, r, ground (arith, wrong, e), a)
      | inr (inr answered) ↦ (i, round, ground (arith, answered), answered)
    ]

ℕ_dichotomy : (i j : ℕ) → (i ≤ j) ⊎ (j < i)
ℕ_dichotomy i j = omega arith

way : (n i j : ℕ) → i < n → j < n → (d : ℕ) × (d < n) × Away n i j d
way n i j h k = elim (ℕ_dichotomy i j) [
  | inl le ↦ (j - i, omega arith, inl (omega arith))
  | inr lt ↦ (n - i + j, omega arith, inr (omega arith))
]

-- A put comes back after one round for each server at most, and keeps as leader a server that
-- answered RAFT_OK, if some server always answers so, and no server answers anything but RAFT_OK
-- or RAFT_ERR_WRONG_LEADER or fails.
pub put_loop-returns :
    (ask : ℕ → ℕ → Option Err) (n round i j : ℕ)
    → i < n
    → j < n
    → ((r : ℕ) → ask r j ≡ some ok)
    → ((r k : ℕ) → k < n → Passes (ask r k))
    → (k : ℕ) × (r : ℕ) × (put_loop n ask n round i ≡ some k) × (ask r k ≡ some ok)
put_loop-returns ask n round i j h k good all =
    let (d, lt, w) = way n i j h k in reaches d n ask n round i j h k w lt good all

-- A get that asks a server whose answer is RAFT_TIMEOUT each time asks no other server and never
-- comes back, whatever the others would answer.
get_loop-stays :
    (fuel : ℕ) (ask : ℕ → ℕ → Option GetReply) (n kept round i : ℕ)
    → ((r : ℕ) → (reply : GetReply) × (ask r i ≡ some reply) × (reply.err ≡ timeout))
    → get_loop fuel ask n kept round i ≡ none
unfolding get_loop
get_loop-stays zero ask n kept round i h = refl
get_loop-stays (suc fuel) ask n kept round i h =
    let (reply, a, e) = h round in
    ground (arith, a, e, get_loop-stays fuel ask n kept (round + 1) i h)
