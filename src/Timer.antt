-- ===== src/Timer.antt =====
-- The timers of src/cort/timer.cpp and src/cort/include/timer.h: the class timer in a heap by
-- address, and the class timerManager, whose set of timers is a list in the comparator's order.
pub mod Ordered
pub mod Managed
pub mod Iterator
pub mod Expired
pub mod Due
pub mod Rounds
pub mod Once
pub mod Twice
use raft_kvstorage.Common.{
  ℕ, ◌+◌, ◌-◌, ◌^◌, ◌%◌, Bool, true, false, not, ◌&&◌, ◌||◌, List, [], ◌∷◌, Option, none, some, ltb,
  leb, ◌==◌, if◌then◌else◌,
}
use raft_kvstorage.Raft.Node.{Outcome, done, threw, undefined}

-- `cb` is the callback, by a number; it is `none` for a null function. Times are `uint64_t`.
pub record Timer : Type 0 where
  pub next : ℕ
  pub recurring : Bool
  pub period : ℕ
  pub cb : Option ℕ

-- `fresh` is the address of the next timer that is made.
pub record TimerManager : Type 0 where
  pub heap : ℕ → Timer
  pub fresh : ℕ
  pub timers : List ℕ
  pub tickled : Bool
  pub previous_time : ℕ

abbrev pub word : ℕ
word = 2 ^ 64

unfoldable pub set_timer : ℕ → Timer → (ℕ → Timer) → ℕ → Timer
set_timer a t heap b = if a == b then t else heap b

-- `timer::comparator`: by time, then by address.
unfoldable pub before : (ℕ → Timer) → ℕ → ℕ → Bool
before heap a b =
    if ltb (heap a).next (heap b).next
    then true
    else if ltb (heap b).next (heap a).next
    then false
    else ltb a b

-- Whether `find` in the set finds the timer: the first one that is not before it is not behind it
-- either, and then is at the same address.
unfoldable pub contains : (ℕ → Timer) → ℕ → List ℕ → Bool
unfolding before
contains heap a [] = false
contains heap a (b ∷ bs) =
    let rest = contains heap a bs in if before heap b a then rest else not (before heap a b)

-- `insert`, and `erase` of what `find` found.
unfoldable pub insert_timer : (ℕ → Timer) → ℕ → List ℕ → List ℕ
unfolding before
insert_timer heap a [] = a ∷ []
insert_timer heap a (b ∷ bs) =
    let rest = insert_timer heap a bs in
    if a == b then b ∷ bs else if before heap a b then a ∷ b ∷ bs else b ∷ rest

unfoldable pub erase : ℕ → List ℕ → List ℕ
erase a [] = []
erase a (b ∷ bs) = let rest = erase a bs in if a == b then rest else b ∷ rest

abbrev pub is_first : ℕ → List ℕ → Bool
is_first a [] = false
is_first a (b ∷ bs) = a == b

-- `_M_addTimer`: the second part of the result says whether `_M_afterAddTimerAtFront` is called.
unfoldable pub add_timer_at : ℕ → TimerManager → TimerManager × Bool
unfolding insert_timer
add_timer_at a m =
    let timers = insert_timer m.heap a m.timers in
    if not (is_first a timers) || m.tickled
    then (record m { timers = timers }, false)
    else (record m { timers = timers; tickled = true }, true)

-- `addTimer`: the new timer's address is the old `fresh`.
unfoldable pub add_timer : ℕ → ℕ → Option ℕ → Bool → TimerManager → TimerManager × Bool
unfolding set_timer add_timer_at
add_timer now period cb recurring m =
    let t : Timer = record {
      next = (now + period) % word;
      recurring = recurring;
      period = period;
      cb = cb;
    } in
    add_timer_at m.fresh (record m { heap = set_timer m.fresh t m.heap; fresh = m.fresh + 1 })

-- `timer::cancel`; erasing the end of a set is undefined.
unfoldable pub cancel : ℕ → TimerManager → TimerManager × Outcome Bool
unfolding set_timer contains erase
cancel a m = elim (m.heap a).cb [
  | none ↦ (m, done false)
  | some f ↦
      let heap = set_timer a (record (m.heap a) { cb = none }) m.heap in
      if contains m.heap a m.timers
      then (record m { heap = heap; timers = erase a m.timers }, done true)
      else (record m { heap = heap }, undefined)
]

-- `timer::refresh`.
unfoldable pub refresh : ℕ → ℕ → TimerManager → TimerManager × Bool
unfolding set_timer contains erase insert_timer
refresh now a m = elim (m.heap a).cb [
  | some f ↦ (m, false)
  | none ↦
      if contains m.heap a m.timers
      then (let heap =
            set_timer a (record (m.heap a) { next = (now + (m.heap a).period) % word }) m.heap in
          (record m { heap = heap; timers = insert_timer heap a (erase a m.timers) }, true))
      else (m, false)
]

-- The timer, taken out of the set, with its new period and time.
unfoldable pub renew : ℕ → ℕ → Bool → ℕ → TimerManager → TimerManager
unfolding set_timer erase
renew now period from_now a m =
    let t = m.heap a in
    record m {
      heap =
          set_timer a
            (record t {
              next = if from_now then now else (t.next + (period + (word - t.period))) % word;
              period = period;
            })
            m.heap;
      timers = erase a m.timers;
    }

-- `timer::reset`. After it has changed the timer it runs off its end without a value, which is
-- undefined where the caller uses the value.
unfoldable pub reset : ℕ → ℕ → Bool → ℕ → TimerManager → TimerManager × Outcome Bool
unfolding contains renew add_timer_at
reset now period from_now a m =
    if period == (m.heap a).period && not from_now then (m, done true) else elim (m.heap a).cb [
      | none ↦ (m, done true)
      | some f ↦
          if contains m.heap a m.timers
          then ((add_timer_at a (renew now period from_now a m)).0, undefined)
          else (m, done false)
    ]

-- `getNextDuration`; `noNext` is the greatest word.
unfoldable pub get_next_duration : ℕ → TimerManager → TimerManager × ℕ
get_next_duration now m =
    let u = record m { tickled = false } in
    elim m.timers [
      | [] ↦ (u, word - 1)
      | a ∷ rest ↦ if leb (m.heap a).next now then (u, 0) else (u, (m.heap a).next - now)
    ]

-- `_M_clockRollover`, with the difference of two words.
unfoldable pub clock_rollover : ℕ → TimerManager → TimerManager × Bool
clock_rollover now m = (
  record m { previous_time = now },
  ltb now m.previous_time && ltb now ((m.previous_time + (word - 3600000)) % word),
)
