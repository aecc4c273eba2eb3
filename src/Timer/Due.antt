-- ===== src/Timer/Due.antt =====
-- `timerManager::timeoutCallbacks` of src/cort/timer.cpp: its iterators are timers of the set, `none`
-- stands for the end.
use raft_kvstorage.Common.{
  ℕ, zero, suc, ◌+◌, ◌%◌, Bool, true, false, not, ◌&&◌, ◌||◌, List, [], ◌∷◌, Option, none, some,
  ltb, ◌==◌, if◌then◌else◌,
}
use raft_kvstorage.Timer.{Timer, TimerManager, word, set_timer, insert_timer, erase, clock_rollover}

abbrev pub begin_timer {ℓ} : {A : Type ℓ} → List A → Option A
begin_timer [] = none
begin_timer (a ∷ xs) = some a

-- `lower_bound` for a timer at the address `now_timer` with the time `now`.
unfoldable pub lower_bound : ℕ → ℕ → (ℕ → Timer) → List ℕ → List ℕ
lower_bound now now_timer heap [] = []
lower_bound now now_timer heap (a ∷ timers) =
    let rest = lower_bound now now_timer heap timers in
    if ltb (heap a).next now || ((heap a).next == now && ltb a now_timer) then rest else a ∷ timers

-- `while(end != timeoutEndIt && now_ms == (*timeoutEndIt)->_M_next) ++timeoutEndIt`.
unfoldable pub past_now : ℕ → (ℕ → Timer) → List ℕ → List ℕ
past_now now heap [] = []
past_now now heap (a ∷ timers) =
    let rest = past_now now heap timers in if (heap a).next == now then rest else a ∷ timers

-- `it++`.
unfoldable pub successor : ℕ → List ℕ → Option ℕ
successor a [] = none
successor a (b ∷ timers) =
    let rest = successor a timers in if a == b then begin_timer timers else rest

-- A timer that is due, taken out of the set; a recurring one goes back with its next time, another
-- one gives up its callback.
unfoldable pub rearm : ℕ → ℕ → TimerManager → TimerManager
unfolding erase insert_timer set_timer
rearm now a m =
    let t = m.heap a in
    let heap = set_timer a (record t { next = (now + t.period) % word }) m.heap in
    if t.recurring
    then record m { heap = heap; timers = insert_timer heap a (erase a m.timers) }
    else record m { heap = set_timer a (record t { cb = none }) m.heap; timers = erase a m.timers }

abbrev pub same_place : Option ℕ → Option ℕ → Bool
same_place none none = true
same_place none (some b) = false
same_place (some a) none = false
same_place (some a) (some b) = a == b

-- The loop; the first argument bounds the rounds, and `none` says that they were not enough.
unfoldable pub due_loop :
    ℕ → ℕ → Option ℕ → Option ℕ → TimerManager → Option (TimerManager × List (Option ℕ))
unfolding rearm successor
due_loop zero now it end m = none
due_loop (suc fuel) now none end m = if same_place none end then some (m, []) else none
due_loop (suc fuel) now (some a) end m =
    let rest = due_loop fuel now (successor a m.timers) end (rearm now a m) in
    if same_place (some a) end
    then some (m, [])
    else elim rest [ none ↦ none | some (n, cbs) ↦ some (n, (m.heap a).cb ∷ cbs) ]

-- `timeoutCallbacks`: the callbacks in the order in which they are to run. `now_timer` is the address
-- of the timer that stands for the present.
unfoldable pub timeout_callbacks :
    ℕ → ℕ → ℕ → TimerManager → Option (TimerManager × List (Option ℕ))
unfolding due_loop clock_rollover lower_bound past_now
timeout_callbacks fuel now now_timer m = elim m.timers [
  | [] ↦ some (m, [])
  | a ∷ rest ↦
      let n = (clock_rollover now m).0 in
      let rollover = (clock_rollover now m).1 in
      if not rollover && ltb now (m.heap a).next
      then some (n, [])
      else due_loop fuel now (some a)
          (if rollover
            then none
            else begin_timer (past_now now m.heap (lower_bound now now_timer m.heap (a ∷ rest))))
          n
]
