-- ===== src/Timer/Once.antt =====
-- Which callbacks `timeoutCallbacks` hands out where no timer recurs.
use raft_kvstorage.Common.{
  ℕ, zero, suc, ◌<◌, ◌≤◌, ◌≡◌, refl, sym, ap, subst, ◌∙◌, false, List, [], ◌∷◌, ◌++◌, map, All,
  length, some, arith,
}
use mathlib.Core.List.{append_assoc}
use raft_kvstorage.Timer.{TimerManager, set_timer, clock_rollover}
use raft_kvstorage.Timer.Due.{
  begin_timer, lower_bound, past_now, successor, rearm, due_loop, timeout_callbacks,
}
use raft_kvstorage.Timer.Rounds.{
  Apart, Distinct, due_end, fired, rearm-fired, successor-begin_timer, not_end, stops_here, goes_on,
  at_time, begins,
}

map-fired :
    (a : ℕ) (m : TimerManager) (timers xs : List ℕ)
    → Apart a xs
    → map (λ x. ((fired a m timers).heap x).cb) xs ≡ map (λ x. (m.heap x).cb) xs
unfolding set_timer
map-fired a m timers [] d = refl
map-fired a m timers (x ∷ xs) d = ground (arith, d.0, map-fired a m timers xs d.1)

All-fired :
    (a : ℕ) (m : TimerManager) (timers xs : List ℕ)
    → Apart a xs
    → All (λ x. (m.heap x).recurring ≡ false) xs
    → All (λ x. ((fired a m timers).heap x).recurring ≡ false) xs
unfolding set_timer
All-fired a m timers [] d h = tt
All-fired a m timers (x ∷ xs) d h = (ground (arith, d.0, h.0), All-fired a m timers xs d.1 h.1)

Apart-left : (a : ℕ) (xs ys : List ℕ) → Apart a (xs ++ ys) → Apart a xs
Apart-left a [] ys d = tt
Apart-left a (x ∷ xs) ys d = (d.0, Apart-left a xs ys d.1)

-- One round for each timer that is due, where none of them is recurring.
due_loop_lem :
    (fuel now : ℕ) (m : TimerManager) (due rest : List ℕ)
    → length due < fuel
    → m.timers ≡ due ++ rest
    → Distinct (due ++ rest)
    → All (λ a. (m.heap a).recurring ≡ false) due
    → (n : TimerManager) × (due_loop fuel now (begin_timer (due ++ rest)) (begin_timer rest) m
        ≡ some (n, map (λ a. (m.heap a).cb) due))
      × (n.timers ≡ rest)
due_loop_lem zero now m due rest lt e d once = elim lt [ ]
due_loop_lem (suc fuel) now m [] rest lt e d once = (m, stops_here fuel now (begin_timer rest) m, e)
due_loop_lem (suc fuel) now m (a ∷ due) rest lt e d once =
    let m' = fired a m (due ++ rest) in
    let (n, go, left) =
      due_loop_lem fuel now m' due rest (omega (arith, lt)) refl d.1
        (All-fired a m (due ++ rest) due (Apart-left a due rest d.0) once.1) in
    let next : successor a m.timers ≡ begin_timer (due ++ rest) =
      ap (successor a) e ∙ successor-begin_timer a (due ++ rest) in
    let round : due_loop fuel now (successor a m.timers) (begin_timer rest) (rearm now a m)
        ≡ some (n, map (λ x. (m.heap x).cb) due) =
      ap (λ it. due_loop fuel now it (begin_timer rest) (rearm now a m)) next
      ∙ ap (due_loop fuel now (begin_timer (due ++ rest)) (begin_timer rest))
          (rearm-fired now a m (due ++ rest) once.0 e d.0)
      ∙ go
      ∙ ap (λ cbs. some (n, cbs)) (map-fired a m (due ++ rest) due (Apart-left a due rest d.0)) in
    (
      n,
      goes_on fuel now a (begin_timer rest) m n (map (λ x. (m.heap x).cb) due)
          (not_end a due rest d.0) round,
      left,
    )

some_due :
    (fuel now now_timer a : ℕ) (m : TimerManager) (due rest : List ℕ)
    → m.previous_time ≤ now
    → m.timers ≡ (a ∷ due) ++ rest
    → (m.heap a).next ≤ now
    → past_now now m.heap (lower_bound now now_timer m.heap ((a ∷ due) ++ rest)) ≡ rest
    → length (a ∷ due) < fuel
    → Distinct ((a ∷ due) ++ rest)
    → All (λ x. (m.heap x).recurring ≡ false) (a ∷ due)
    → (n : TimerManager) × (timeout_callbacks fuel now now_timer m
        ≡ some (n, map (λ x. (m.heap x).cb) (a ∷ due)))
      × (n.timers ≡ rest)
some_due fuel now now_timer a m due rest past e le end lt d once =
    let (n, go, left) = due_loop_lem fuel now (at_time now m) (a ∷ due) rest lt e d once in
    (n, begins fuel now now_timer a m (due ++ rest) rest past e le end ∙ go, left)

nothing_due :
    (fuel now now_timer : ℕ) (m : TimerManager) (rest : List ℕ)
    → m.previous_time ≤ now
    → m.timers ≡ rest
    → All (λ a. now < (m.heap a).next) rest
    → (n : TimerManager) × (timeout_callbacks fuel now now_timer m ≡ some (n, []))
      × (n.timers ≡ rest)
unfolding timeout_callbacks clock_rollover
nothing_due fuel now now_timer m [] past e later = (m, ground (arith, e), e)
nothing_due fuel now now_timer m (a ∷ rest) past e later =
    (at_time now m, ground (arith, e, later.0), e)

-- Where the timers of the set are distinct, those that are due do not recur, and the clock has not
-- gone back, the callbacks of the timers whose time has
-- come are handed out, each once, in the order of the set, and these timers leave it; as many rounds
-- as there are such timers, and one, are enough.
pub timeout_callbacks_lem :
    (fuel now now_timer : ℕ) (m : TimerManager) (early punctual rest : List ℕ)
    → m.previous_time ≤ now
    → m.timers ≡ early ++ (punctual ++ rest)
    → Distinct (early ++ (punctual ++ rest))
    → All (λ a. (m.heap a).next < now) early
    → All (λ a. (m.heap a).next ≡ now) punctual
    → All (λ a. now < (m.heap a).next) rest
    → All (λ a. (m.heap a).recurring ≡ false) (early ++ punctual)
    → length (early ++ punctual) < fuel
    → (n : TimerManager) × (timeout_callbacks fuel now now_timer m
        ≡ some (n, map (λ a. (m.heap a).cb) (early ++ punctual)))
      × (n.timers ≡ rest)
timeout_callbacks_lem fuel now now_timer m [] [] rest past e d early punctual later once lt =
    nothing_due fuel now now_timer m rest past e later
timeout_callbacks_lem fuel now now_timer m [] (a ∷ due) rest past e d early punctual later once lt =
    some_due fuel now now_timer a m due rest past e (omega (arith, punctual.0))
      (due_end now now_timer m.heap [] (a ∷ due) rest early punctual later) lt d once
timeout_callbacks_lem fuel now now_timer m (a ∷ es) ps rest past e d early punctual later once lt =
    let joined = append_assoc (a ∷ es) ps rest in
    some_due fuel now now_timer a m (es ++ ps) rest past (e ∙ sym joined) (omega (arith, early.0))
      (subst (λ xs. past_now now m.heap (lower_bound now now_timer m.heap xs) ≡ rest) (sym joined)
        (due_end now now_timer m.heap (a ∷ es) ps rest early punctual later))
      lt (subst Distinct (sym joined) d) once
