-- ===== src/Tests/Timing.antt =====
-- Timers at concrete times.
use raft_kvstorage.Common.{
  ℕ, ◌≡◌, ◌≢◌, refl, true, false, [], ◌∷◌, none, some, ◌==◌, if◌then◌else◌, arith,
}
use raft_kvstorage.Raft.Node.{undefined}
use raft_kvstorage.Timer.{
  TimerManager, set_timer, before, contains, insert_timer, erase, add_timer, add_timer_at, cancel,
  reset, renew, clock_rollover, get_next_duration,
}
use raft_kvstorage.Timer.Due.{timeout_callbacks, due_loop, rearm, successor, past_now, lower_bound}
use raft_kvstorage.Timer.Once.{timeout_callbacks_lem}
use raft_kvstorage.Timer.Twice.{timeout_callbacks-twice}
use raft_kvstorage.Timer.Ordered.{listed}
use raft_kvstorage.Timer.Managed.{IsManaged, adds, cancels, resets, step}
use raft_kvstorage.Timer.Expired.{here, calls, times_out, run-IsManaged}

-- Timer 0 is due at time 60, timer 1 was cancelled.
abbrev manager : TimerManager
manager = record {
  heap = λ a.
      if a == 0
      then record { next = 60; recurring = true; period = 50; cb = some 4 }
      else record { next = 20; recurring = false; period = 5; cb = none };
  fresh = 2;
  timers = 0 ∷ [];
  tickled = false;
  previous_time = 10;
}

manager-IsManaged : IsManaged manager
unfolding listed
manager-IsManaged = record {
  held = λ a. ground arith;
  ordered = (tt, tt);
  made = λ a le. ground arith;
}

-- A timer is added and due at 24, and another call is a reset.
abbrev before_timeout : TimerManager
before_timeout = step (resets 14 9 false 0) (step (adds 12 3 8 false) manager)

abbrev timed : TimerManager
timed = record before_timeout {
  heap = set_timer 2 (record (before_timeout.heap 2) { cb = none }) before_timeout.heap;
  timers = 0 ∷ [];
  previous_time = 16;
}

ends_round : timeout_callbacks 3 16 9 before_timeout ≡ some (timed, some 8 ∷ [])
unfolding timeout_callbacks due_loop rearm successor past_now lower_bound clock_rollover step
    add_timer add_timer_at reset renew insert_timer erase before contains set_timer
ends_round = refl

run-IsManaged_example :
    IsManaged (step (cancels 0) timed)
    × ((a : ℕ) → (cancel a (step (cancels 0) timed)).1 ≢ undefined)
run-IsManaged_example =
    run-IsManaged
      (calls (cancels 0) (
        times_out 3 16 9 (calls (resets 14 9 false 0) (calls (adds 12 3 8 false) here)) ends_round))
      manager-IsManaged

-- The next timer is due in 45 units of time, and at once after a reset from now on.
wait_next : (get_next_duration 15 manager).1 ≡ 45
unfolding get_next_duration
wait_next = refl

wait_reset : (get_next_duration 15 (reset 15 30 true 0 manager).0).1 ≡ 0
unfolding get_next_duration reset
wait_reset = refl

-- Timer 1 is due at 20, timer 0 at 60, timer 2 at 90.
abbrev three_timers : TimerManager
three_timers = record {
  heap = λ a.
      if a == 0
      then record { next = 60; recurring = false; period = 5; cb = some 4 }
      else if a == 1
      then record { next = 20; recurring = false; period = 5; cb = some 7 }
      else record { next = 90; recurring = false; period = 5; cb = some 9 };
  fresh = 3;
  timers = 1 ∷ 0 ∷ 2 ∷ [];
  tickled = false;
  previous_time = 10;
}

timeout_callbacks_lem_example :
    (n : TimerManager) × (timeout_callbacks 3 60 8 three_timers ≡ some (n, some 7 ∷ some 4 ∷ []))
    × (n.timers ≡ 2 ∷ [])
timeout_callbacks_lem_example =
    timeout_callbacks_lem 3 60 8 three_timers (1 ∷ []) (0 ∷ []) (2 ∷ []) (omega arith) refl
      ((omega arith, (omega arith, tt)), ((omega arith, tt), (tt, tt))) (omega arith, tt) (refl, tt)
      (omega arith, tt) (refl, (refl, tt)) (omega arith)

-- Timer 0 recurs and is due at 20, timer 1 at 30.
abbrev two_timers : TimerManager
two_timers = record {
  heap = λ a.
      if a == 0
      then record { next = 20; recurring = true; period = 50; cb = some 4 }
      else record { next = 30; recurring = false; period = 5; cb = some 7 };
  fresh = 2;
  timers = 0 ∷ 1 ∷ [];
  tickled = false;
  previous_time = 10;
}

timeout_callbacks-twice_example :
    (n : TimerManager) × (timeout_callbacks 4 60 8 two_timers
      ≡ some (n, some 4 ∷ some 7 ∷ some 4 ∷ []))
timeout_callbacks-twice_example =
    timeout_callbacks-twice 60 8 0 1 two_timers (omega arith) refl (omega arith) (omega arith)
      (omega arith) refl refl (omega arith)
