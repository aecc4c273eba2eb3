-- ===== src/Timer/Rounds.antt =====
-- The rounds of `timerManager::timeoutCallbacks`, and the end it finds.
use raft_kvstorage.Common.{
  ℕ, suc, ◌<◌, ◌≤◌, ◌≡◌, ◌≢◌, refl, true, false, List, [], ◌∷◌, ◌++◌, All, Option, none, some,
  arith,
}
use raft_kvstorage.Timer.{Timer, TimerManager, set_timer, erase, clock_rollover}
use raft_kvstorage.Timer.Due.{
  begin_timer, lower_bound, past_now, successor, rearm, same_place, due_loop, timeout_callbacks,
}

abbrev pub Apart : ℕ → List ℕ → Type 0
Apart a xs = All (λ x. x ≢ a) xs

abbrev pub Distinct : List ℕ → Type 0
Distinct [] = Unit {0}
Distinct (x ∷ xs) = Apart x xs × Distinct xs

pub past_now-append :
    (now : ℕ) (h : ℕ → Timer) (due rest : List ℕ)
    → All (λ a. (h a).next ≡ now) due
    → All (λ a. now < (h a).next) rest
    → past_now now h (due ++ rest) ≡ rest
unfolding past_now
past_now-append now h [] [] d r = refl
past_now-append now h [] (a ∷ rest) d r = ground (arith, r.0)
past_now-append now h (a ∷ due) rest d r = ground (arith, d.0, past_now-append now h due rest d.1 r)

pub punctual_end :
    (now now_timer : ℕ) (h : ℕ → Timer) (due rest : List ℕ)
    → All (λ a. (h a).next ≡ now) due
    → All (λ a. now < (h a).next) rest
    → past_now now h (lower_bound now now_timer h (due ++ rest)) ≡ rest
unfolding lower_bound past_now
punctual_end now now_timer h [] [] d r = refl
punctual_end now now_timer h [] (a ∷ rest) d r = ground (arith, r.0)
punctual_end now now_timer h (a ∷ due) rest d r =
    ground (
      arith,
      d.0,
      punctual_end now now_timer h due rest d.1 r,
      past_now-append now h due rest d.1 r,
    )

-- The timers up to the present stand before the end that the code finds.
pub due_end :
    (now now_timer : ℕ) (h : ℕ → Timer) (early punctual rest : List ℕ)
    → All (λ a. (h a).next < now) early
    → All (λ a. (h a).next ≡ now) punctual
    → All (λ a. now < (h a).next) rest
    → past_now now h (lower_bound now now_timer h (early ++ (punctual ++ rest))) ≡ rest
unfolding lower_bound
due_end now now_timer h [] punctual rest e d r = punctual_end now now_timer h punctual rest d r
due_end now now_timer h (a ∷ early) punctual rest e d r =
    ground (arith, e.0, due_end now now_timer h early punctual rest e.1 d r)

pub erase-Apart : (a : ℕ) (xs : List ℕ) → Apart a xs → erase a xs ≡ xs
unfolding erase
erase-Apart a [] d = refl
erase-Apart a (x ∷ xs) d = ground (arith, d.0, erase-Apart a xs d.1)

abbrev pub fired : ℕ → TimerManager → List ℕ → TimerManager
fired a m timers = record m {
  heap = set_timer a (record (m.heap a) { cb = none }) m.heap;
  timers = timers;
}

pub rearm-fired :
    (now a : ℕ) (m : TimerManager) (timers : List ℕ)
    → (m.heap a).recurring ≡ false
    → m.timers ≡ a ∷ timers
    → Apart a timers
    → rearm now a m ≡ fired a m timers
unfolding rearm erase
rearm-fired now a m timers once e d = ground (arith, once, e, erase-Apart a timers d)

pub successor-begin_timer :
    (a : ℕ) (timers : List ℕ) → successor a (a ∷ timers) ≡ begin_timer timers
unfolding successor
successor-begin_timer a timers = ground arith

pub not_end :
    (a : ℕ) (due rest : List ℕ)
    → Apart a (due ++ rest)
    → same_place (some a) (begin_timer rest) ≡ false
not_end a [] [] d = refl
not_end a [] (x ∷ rest) d = ground (arith, d.0)
not_end a (y ∷ due) rest d = not_end a due rest d.1

pub at_end : (end : Option ℕ) → same_place end end ≡ true
at_end none = refl
at_end (some a) = ground arith

pub stops_here :
    (fuel now : ℕ) (it : Option ℕ) (m : TimerManager)
    → due_loop (suc fuel) now it it m ≡ some (m, [])
unfolding due_loop
stops_here fuel now none m = refl
stops_here fuel now (some a) m = ground (arith, at_end (some a))

pub goes_on :
    (fuel now a : ℕ) (end : Option ℕ) (m n : TimerManager) (cbs : List (Option ℕ))
    → same_place (some a) end ≡ false
    → due_loop fuel now (successor a m.timers) end (rearm now a m) ≡ some (n, cbs)
    → due_loop (suc fuel) now (some a) end m ≡ some (n, (m.heap a).cb ∷ cbs)
unfolding due_loop
goes_on fuel now a end m n cbs other e = ground (arith, other, e)

abbrev pub at_time : ℕ → TimerManager → TimerManager
at_time now m = record m { previous_time = now }

pub begins :
    (fuel now now_timer a : ℕ) (m : TimerManager) (xs rest : List ℕ)
    → m.previous_time ≤ now
    → m.timers ≡ a ∷ xs
    → (m.heap a).next ≤ now
    → past_now now m.heap (lower_bound now now_timer m.heap (a ∷ xs)) ≡ rest
    → timeout_callbacks fuel now now_timer m
      ≡ due_loop fuel now (some a) (begin_timer rest) (at_time now m)
unfolding timeout_callbacks clock_rollover
begins fuel now now_timer a m xs rest past e le end = ground (arith, e, end)
