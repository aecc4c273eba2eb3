-- ===== src/Timer/Managed.antt =====
-- Which timers stand in the manager's set.
use raft_kvstorage.Common.{
  ℕ, ◌+◌, ◌-◌, ◌%◌, if◌then◌else◌, ◌⊎◌, ◌≤◌, ◌≡◌, ◌≢◌, sym, ap, subst, ◌∙◌, Bool, inl, inr, true,
  false, ◌||◌, Option, none, some, arith, ◌==◌,
}
use raft_kvstorage.Raft.Node.{undefined}
use raft_kvstorage.Timer.Ordered.{
  listed, IsOrdered, listed-insert_timer, listed-erase, contains-listed, erase-IsOrdered,
  insert_timer-IsOrdered, set_timer-IsOrdered,
}
use raft_kvstorage.Timer.{
  Timer, TimerManager, set_timer, contains, insert_timer, erase, add_timer_at, add_timer, cancel,
  refresh, reset, renew, word,
}

abbrev pub has_cb : Option ℕ → Bool
has_cb none = false
has_cb (some f) = true

-- The set holds exactly the timers that have a callback, all of which were made, in the order of their
-- times.
pub record IsManaged (m : TimerManager) : Type 0 where
  pub held : (a : ℕ) → listed a m.timers ≡ has_cb (m.heap a).cb
  pub ordered : IsOrdered m.heap m.timers
  pub made : (a : ℕ) → m.fresh ≤ a → (m.heap a).cb ≡ none

-- A call of a timer or of the manager, with the clock's reading.
pub data Call : Type 0 where
  adds : ℕ → ℕ → ℕ → Bool → Call
  cancels : ℕ → Call
  refreshes : ℕ → ℕ → Call
  resets : ℕ → ℕ → Bool → ℕ → Call

unfoldable pub step : Call → TimerManager → TimerManager
step (adds now period cb recurring) m = (add_timer now period (some cb) recurring m).0
step (cancels a) m = (cancel a m).0
step (refreshes now a) m = (refresh now a m).0
step (resets now period from_now a) m = (reset now period from_now a m).0

-- `_M_addTimer` inserts the timer, whatever it says to the thread that waits.
add_timer_at-ticked :
    (a : ℕ) (m : TimerManager)
    → ◌≡◌ {A = TimerManager}
        (record m {
          timers = insert_timer m.heap a m.timers;
          tickled = (add_timer_at a m).0.tickled;
        })
        (add_timer_at a m).0
unfolding add_timer_at
add_timer_at-ticked a m = ground arith

pub added :
    (a : ℕ) (m : TimerManager)
    → ((x : ℕ) → (x == a || listed x m.timers) ≡ has_cb (m.heap x).cb)
    → IsOrdered m.heap m.timers
    → ((x : ℕ) → m.fresh ≤ x → (m.heap x).cb ≡ none)
    → IsManaged (add_timer_at a m).0
unfolding add_timer_at
added a m held ordered made = record {
  held = λ x. ground (arith, listed-insert_timer m.heap x a m.timers, held x);
  ordered =
      subst (λ n. IsOrdered n.heap n.timers) (add_timer_at-ticked a m)
        (insert_timer-IsOrdered m.heap a m.timers ordered);
  made = λ x le. ground (arith, made x);
}

add_timer-IsManaged :
    (now period cb : ℕ) (recurring : Bool) (m : TimerManager)
    → IsManaged m
    → IsManaged (add_timer now period (some cb) recurring m).0
unfolding add_timer set_timer
add_timer-IsManaged now period cb recurring m i =
    added m.fresh
      (record m {
        heap =
            set_timer m.fresh
              (record {
                next = (now + period) % word;
                recurring = recurring;
                period = period;
                cb = some cb;
              })
              m.heap;
        fresh = m.fresh + 1;
      })
      (λ x. ground (arith, i.held x, i.made m.fresh))
      (set_timer-IsOrdered m.heap m.fresh
        (record {
          next = (now + period) % word;
          recurring = recurring;
          period = period;
          cb = some cb;
        })
        m.timers (ground (arith, i.held m.fresh, i.made m.fresh)) i.ordered)
      (λ x le. ground (arith, i.made x))

-- The manager when the timer has lost its callback and its place.
abbrev pub dropped : ℕ → TimerManager → TimerManager
dropped a m = record m {
  heap = set_timer a (record (m.heap a) { cb = none }) m.heap;
  timers = erase a m.timers;
}

pub dropped-IsManaged : (a : ℕ) (m : TimerManager) → IsManaged m → IsManaged (dropped a m)
unfolding set_timer
dropped-IsManaged a m i = record {
  held = λ x. ground (arith, listed-erase x a m.timers, i.held x);
  ordered =
      set_timer-IsOrdered m.heap a (record (m.heap a) { cb = none }) (erase a m.timers)
        (ground (arith, listed-erase a a m.timers)) (erase-IsOrdered m.heap a m.timers i.ordered);
  made = λ x le. ground (arith, i.made x);
}

-- `find` finds the timers that have a callback.
pub contains-has_cb :
    (a : ℕ) (m : TimerManager) → IsManaged m → contains m.heap a m.timers ≡ has_cb (m.heap a).cb
contains-has_cb a m i = contains-listed m.heap a m.timers i.ordered ∙ i.held a

cancel-cases :
    (a : ℕ) (m : TimerManager)
    → contains m.heap a m.timers ≡ has_cb (m.heap a).cb
    → ((cancel a m).0 ≡ m) ⊎ ((cancel a m).0 ≡ dropped a m)
unfolding cancel
cancel-cases a m e = ground (arith, e)

cancel-IsManaged : (a : ℕ) (m : TimerManager) → IsManaged m → IsManaged (cancel a m).0
cancel-IsManaged a m i = elim (cancel-cases a m (contains-has_cb a m i)) [
  | inl same ↦ subst IsManaged (sym same) i
  | inr gone ↦ subst IsManaged (sym gone) (dropped-IsManaged a m i)
]

reset-cases :
    (now period : ℕ) (from_now : Bool) (a : ℕ) (m : TimerManager)
    → ((reset now period from_now a m).0 ≡ m)
      ⊎ (((reset now period from_now a m).0 ≡ (add_timer_at a (renew now period from_now a m)).0)
          × (has_cb (m.heap a).cb ≡ true))
unfolding reset
reset-cases now period from_now a m = ground arith

abbrev renewed : ℕ → ℕ → Bool → Timer → Timer
renewed now period from_now t = record t {
  next = if from_now then now else (t.next + (period + (word - t.period))) % word;
  period = period;
}

reset-IsManaged :
    (now period : ℕ) (from_now : Bool) (a : ℕ) (m : TimerManager)
    → IsManaged m
    → IsManaged (reset now period from_now a m).0
unfolding renew set_timer
reset-IsManaged now period from_now a m i = elim (reset-cases now period from_now a m) [
  | inl same ↦ subst IsManaged (sym same) i
  | inr (e, c) ↦ subst IsManaged (sym e) (
      added a (renew now period from_now a m)
        (λ x. ground (arith, listed-erase x a m.timers, i.held x, c))
        (set_timer-IsOrdered m.heap a (renewed now period from_now (m.heap a)) (erase a m.timers)
          (ground (arith, listed-erase a a m.timers)) (erase-IsOrdered m.heap a m.timers i.ordered))
        (λ x le. ground (arith, i.made x)))
]

-- A refresh never changes anything and always says false: it looks for a timer without a callback
-- in a set whose timers all have one.
refresh-idle : (now a : ℕ) (m : TimerManager) → IsManaged m → refresh now a m ≡ (m, false)
unfolding refresh
refresh-idle now a m i = ground (arith, contains-has_cb a m i)

pub cancel-defined : (a : ℕ) (m : TimerManager) → IsManaged m → (cancel a m).1 ≢ undefined
unfolding cancel
cancel-defined a m i = λ e. ground (arith, contains-has_cb a m i, e)

pub step-IsManaged : (op : Call) (m : TimerManager) → IsManaged m → IsManaged (step op m)
unfolding step
step-IsManaged (adds now period cb recurring) m i = add_timer-IsManaged now period cb recurring m i
step-IsManaged (cancels a) m i = cancel-IsManaged a m i
step-IsManaged (refreshes now a) m i =
    subst IsManaged (sym (ap (λ p. p.0) (refresh-idle now a m i))) i
step-IsManaged (resets now period from_now a) m i = reset-IsManaged now period from_now a m i
