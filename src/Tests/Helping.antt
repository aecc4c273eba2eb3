-- ===== src/Tests/Helping.antt =====
-- The helpers of src/utils.h at concrete inputs.
use raft_kvstorage.Common.{[], ◌∷◌, ℕ, ◌≡◌, refl, Bool, true, [], ◌∷◌, ◌==◌}
use raft_kvstorage.Utils.Pool
use raft_kvstorage.Utils.Pool.{
  ThreadPool, happen, Past, begin, after_push, after_stop, after_take, new_pool, IsDrained,
  run-IsDrained,
}
use raft_kvstorage.Utils.{find_available_port, to_hex}

abbrev third : ℕ → Bool
third p = p == 8002

-- Port 8002 is found, and 8000 is handed back.
find_third : find_available_port third 8000 ≡ (true, 8000)
unfolding find_available_port
find_third = refl

hex_of : to_hex (10 ∷ 255 ∷ []) ≡ 48 ∷ 97 ∷ 102 ∷ 102 ∷ []
unfolding to_hex
hex_of = refl

-- Two tasks, of which one is taken before the destructor's mark.
run-IsDrained_example : IsDrained (8 ∷ 9 ∷ []) (
    happen Pool.takes (
      happen Pool.stops
        (happen Pool.takes (happen (Pool.pushes 9) (happen (Pool.pushes 8) new_pool)))))
unfolding happen
run-IsDrained_example =
    run-IsDrained
      (after_take (after_stop (after_take (after_push 9 (after_push 8 begin refl) refl))))
