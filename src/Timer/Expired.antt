-- ===== src/Timer/Expired.antt =====
-- The set over a whole run of the manager, `timeoutCallbacks` included.
use raft_kvstorage.Common.{
  ℕ, zero, suc, ◌≡◌, ◌≢◌, ◌⊎◌, refl, sym, ap, subst, ◌∙◌, inl, inr, Bool-cases, true, not, ◌&&◌,
  List, [], ◌∷◌, Option, none, some, arith, if◌then◌else◌, ltb,
}
use raft_kvstorage.Raft.Node.{undefined}
use raft_kvstorage.Timer.{TimerManager, cancel, clock_rollover}
use raft_kvstorage.Timer.Due.{
  begin_timer, lower_bound, past_now, successor, rearm, same_place, due_loop, timeout_callbacks,
}
use raft_kvstorage.Timer.Ordered.{listed}
use raft_kvstorage.Timer.Managed.{IsManaged, Call, step, step-IsManaged, cancel-defined}
use raft_kvstorage.Timer.Iterator.{
  rearm-IsManaged, Stands, successor-Stands, successor-Apart, next-Stands,
}

abbrev Ends : Option (TimerManager × List (Option ℕ)) → Type 0
Ends none = Unit {0}
Ends (some (n, cbs)) = IsManaged n

Ends-more :
    (cb : Option ℕ) (r : Option (TimerManager × List (Option ℕ)))
    → Ends r
    → Ends (elim r [ none ↦ none | some (n, cbs) ↦ some (n, cb ∷ cbs) ])
Ends-more cb none h = tt
Ends-more cb (some (n, cbs)) h = h

due_loop-IsManaged :
    (fuel now : ℕ) (it end : Option ℕ) (m : TimerManager)
    → IsManaged m
    → Stands it m.timers
    → Ends (due_loop fuel now it end m)
unfolding due_loop
due_loop-IsManaged zero now it end m i h = tt
due_loop-IsManaged (suc fuel) now none end m i h = elim (Bool-cases (same_place none end)) [
  | inl at ↦ rw at i
  | inr on ↦ rw on tt
]
due_loop-IsManaged (suc fuel) now (some a) end m i h = elim (Bool-cases (same_place (some a) end)) [
  | inl at ↦ rw at i
  | inr on ↦
      let rest =
        due_loop-IsManaged fuel now (successor a m.timers) end (rearm now a m)
          (rearm-IsManaged now a m i h)
          (next-Stands now a m (successor a m.timers) (successor-Stands a m.timers)
            (successor-Apart m.heap a m.timers i.ordered)) in
      rw on (
        Ends-more (m.heap a).cb (due_loop fuel now (successor a m.timers) end (rearm now a m)) rest)
]

at_time : (now : ℕ) (m : TimerManager) → IsManaged m → IsManaged (clock_rollover now m).0
unfolding clock_rollover
at_time now m i = record { held = i.held; ordered = i.ordered; made = i.made }

same_timers : (now : ℕ) (m : TimerManager) → (clock_rollover now m).0.timers ≡ m.timers
unfolding clock_rollover
same_timers now m = refl

timeouts-cases :
    (fuel now now_timer : ℕ) (m : TimerManager) (timers : List ℕ)
    → m.timers ≡ timers
    → (timeout_callbacks fuel now now_timer m ≡ some (m, []))
      ⊎ ((timeout_callbacks fuel now now_timer m ≡ some ((clock_rollover now m).0, []))
          ⊎ ((a : ℕ) × (end : Option ℕ) × (listed a m.timers ≡ true)
              × (timeout_callbacks fuel now now_timer m
                  ≡ due_loop fuel now (some a) end (clock_rollover now m).0)))
unfolding timeout_callbacks listed
timeouts-cases fuel now now_timer m [] e = inl (rw e refl)
timeouts-cases fuel now now_timer m (a ∷ rest) e =
    elim (Bool-cases (not (clock_rollover now m).1 && ltb now (m.heap a).next)) [
      | inl early ↦ inr (inl (rw e (rw early refl)))
      | inr due ↦ inr (
          inr (
            a,
            if (clock_rollover now m).1
                then none
                else begin_timer
                    (past_now now m.heap (lower_bound now now_timer m.heap (a ∷ rest))),
            rw e (ground arith),
            rw e (rw due refl),
          ))
    ]

timeout_callbacks-IsManaged :
    (fuel now now_timer : ℕ) (m : TimerManager)
    → IsManaged m
    → Ends (timeout_callbacks fuel now now_timer m)
timeout_callbacks-IsManaged fuel now now_timer m i =
    elim (timeouts-cases fuel now now_timer m m.timers refl) [
      | inl e ↦ subst Ends (sym e) i
      | inr (inl e) ↦ subst Ends (sym e) (at_time now m i)
      | inr (inr (a, end, inside, e)) ↦ subst Ends (sym e) (
          due_loop-IsManaged fuel now (some a) end (clock_rollover now m).0 (at_time now m i)
            (ap (listed a) (same_timers now m) ∙ inside))
    ]

-- The manager after calls: those of its timers and its own, and rounds of `timeoutCallbacks`, each
-- with enough fuel to end.
pub data Reach (m : TimerManager) : TimerManager → Type 0 where
  here : Reach m m
  calls : {n : TimerManager} (op : Call) → Reach m n → Reach m (step op n)
  times_out :
      {n o : TimerManager} {cbs : List (Option ℕ)} (fuel now now_timer : ℕ)
      → Reach m n
      → timeout_callbacks fuel now now_timer n ≡ some (o, cbs)
      → Reach m o

-- Timers with a callback are added, cancelled, refreshed and reset, and `timeoutCallbacks` is called:
-- through any such calls, the set is in the order of the times and holds exactly the timers that have
-- a callback, so that a cancel finds in it, by the time, the timer that it erases.
pub run-IsManaged :
    {m n : TimerManager}
    → Reach m n
    → IsManaged m
    → IsManaged n × ((a : ℕ) → (cancel a n).1 ≢ undefined)
run-IsManaged {n} r i = (managed r i, λ a. cancel-defined a n (managed r i))
  where
    managed : {m n : TimerManager} → Reach m n → IsManaged m → IsManaged n
    managed here i = i
    managed (calls {n} op r) i = step-IsManaged op n (managed r i)
    managed (times_out {n} fuel now now_timer r e) i =
        subst Ends e (timeout_callbacks-IsManaged fuel now now_timer n (managed r i))
