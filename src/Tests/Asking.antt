-- ===== src/Tests/Asking.antt =====
-- A clerk and three servers.
use raft_kvstorage.Common.{ℕ, ◌≡◌, refl, Option, none, some, [], ◌∷◌, arith, ◌==◌, if◌then◌else◌}
use raft_kvstorage.Operation.{Err, ok, wrong_leader, timeout, GetReply}
use raft_kvstorage.Clerk.{put_loop}
use raft_kvstorage.Clerk.Rotation.{Passes, put_loop-returns}

-- Server 2 leads.
abbrev lead : ℕ → ℕ → Option Err
lead r i = if i == 2 then some ok else if i == 1 then some wrong_leader else none

lead-Passes : (r k : ℕ) → Passes (lead r k)
lead-Passes r k = ground arith

put_loop-returns_example :
    (k : ℕ) × (r : ℕ) × (put_loop 3 lead 3 0 0 ≡ some k) × (lead r k ≡ some ok)
put_loop-returns_example =
    put_loop-returns lead 3 0 0 2 (omega arith) (omega arith) (λ r. refl)
      (λ r k lt. lead-Passes r k)

abbrev late : ℕ → ℕ → Option GetReply
late r i =
    if i == 0
    then some (record { err = timeout; value = [] })
    else some (record { err = ok; value = 7 ∷ [] })

put_rotates : put_loop 3 lead 3 0 0 ≡ some 2
unfolding put_loop
put_rotates = refl
