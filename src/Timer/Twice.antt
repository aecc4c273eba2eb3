-- ===== src/Timer/Twice.antt =====
-- What `timeoutCallbacks` hands out where a timer recurs.
use raft_kvstorage.Common.{
  ℕ, ◌+◌, ◌%◌, ◌<◌, ◌≤◌, ◌≡◌, ◌≢◌, refl, ap, ◌∙◌, true, false, List, [], ◌∷◌, none, some, arith,
}
use raft_kvstorage.Timer.{TimerManager, word, set_timer, before, insert_timer, erase}
use raft_kvstorage.Timer.Due.{begin_timer, successor, rearm, due_loop, timeout_callbacks}
use raft_kvstorage.Timer.Rounds.{
  due_end, fired, rearm-fired, successor-begin_timer, stops_here, goes_on, at_time, begins,
}

abbrev put_back : ℕ → ℕ → TimerManager → List ℕ → TimerManager
put_back now a m timers = record m {
  heap = set_timer a (record (m.heap a) { next = (now + (m.heap a).period) % word }) m.heap;
  timers = timers;
}

rearm-put_back :
    (now a b : ℕ) (m : TimerManager)
    → (m.heap a).recurring ≡ true
    → m.timers ≡ a ∷ b ∷ []
    → a ≢ b
    → (m.heap b).next < (now + (m.heap a).period) % word
    → rearm now a m ≡ put_back now a m (b ∷ a ∷ [])
unfolding rearm erase insert_timer before set_timer
rearm-put_back now a b m again e ne lt = ground (arith, again, e)

other-put_back :
    (now a b : ℕ) (m : TimerManager) (timers : List ℕ)
    → a ≢ b
    → (put_back now a m timers).heap b ≡ m.heap b
unfolding set_timer
other-put_back now a b m timers ne = ground arith

successor-second :
    (a b : ℕ) (timers : List ℕ) → a ≢ b → successor a (b ∷ a ∷ timers) ≡ begin_timer timers
unfolding successor
successor-second a b timers ne = ground arith

own-fired :
    (now a b : ℕ) (m : TimerManager) (timers left : List ℕ)
    → a ≢ b
    → ((fired b (put_back now a m timers) left).heap a).cb ≡ (m.heap a).cb
unfolding set_timer
own-fired now a b m timers left ne = ground arith

-- The rounds for `a`, for `b`, and again for `a`.
three_rounds :
    (now a b : ℕ) (m : TimerManager)
    → m.timers ≡ a ∷ b ∷ []
    → a ≢ b
    → (m.heap a).recurring ≡ true
    → (m.heap b).recurring ≡ false
    → (m.heap b).next < (now + (m.heap a).period) % word
    → (n : TimerManager) × (due_loop 4 now (some a) none m
        ≡ some (n, (m.heap a).cb ∷ (m.heap b).cb ∷ (m.heap a).cb ∷ []))
three_rounds now a b m e ne again once lt =
    let m1 = put_back now a m (b ∷ a ∷ []) in
    let m2 = fired b m1 (a ∷ []) in
    let n = rearm now a m2 in
    let b_same = other-put_back now a b m (b ∷ a ∷ []) ne in
    let third : due_loop 2 now (some a) none m2 ≡ some (n, (m2.heap a).cb ∷ []) =
      goes_on 1 now a none m2 n [] refl (
        ap (λ it. due_loop 1 now it none n) (successor-begin_timer a [])
        ∙ stops_here 0 now none n) in
    let second : due_loop 3 now (some b) none m1 ≡ some (n, (m1.heap b).cb ∷ (m2.heap a).cb ∷ []) =
      goes_on 2 now b none m1 n ((m2.heap a).cb ∷ []) refl (
        ap (λ it. due_loop 2 now it none (rearm now b m1)) (successor-begin_timer b (a ∷ []))
        ∙ ap (due_loop 2 now (some a) none)
            (rearm-fired now b m1 (a ∷ []) (ap (λ t. t.recurring) b_same ∙ once) refl (ne, tt))
        ∙ third) in
    let cbs : (m1.heap b).cb ∷ (m2.heap a).cb ∷ [] ≡ (m.heap b).cb ∷ (m.heap a).cb ∷ [] =
      ap (λ t. t.cb ∷ (m2.heap a).cb ∷ []) b_same
      ∙ ap (λ c. (m.heap b).cb ∷ c ∷ []) (own-fired now a b m (b ∷ a ∷ []) (a ∷ []) ne) in
    (
      n,
      goes_on 3 now a none m n ((m.heap b).cb ∷ (m.heap a).cb ∷ []) refl (
          ap (λ it. due_loop 3 now it none (rearm now a m))
            (ap (successor a) e ∙ successor-begin_timer a (b ∷ []))
          ∙ ap (due_loop 3 now (some b) none) (rearm-put_back now a b m again e ne lt)
          ∙ second
          ∙ ap (λ xs. some (n, xs)) cbs),
    )

-- Where the clock has not gone back, the set holds two timers, `a` and behind it `b`, whose times have
-- passed, `a` alone recurs, and its next time fits 64 bits, the callback of `a` is handed out twice.
pub timeout_callbacks-twice :
    (now now_timer a b : ℕ) (m : TimerManager)
    → m.previous_time ≤ now
    → m.timers ≡ a ∷ b ∷ []
    → a ≢ b
    → (m.heap a).next < now
    → (m.heap b).next < now
    → (m.heap a).recurring ≡ true
    → (m.heap b).recurring ≡ false
    → now + (m.heap a).period < word
    → (n : TimerManager) × (timeout_callbacks 4 now now_timer m
        ≡ some (n, (m.heap a).cb ∷ (m.heap b).cb ∷ (m.heap a).cb ∷ []))
timeout_callbacks-twice now now_timer a b m past e ne due due' again once small =
    let (n, go) =
      three_rounds now a b (at_time now m) e ne again once (omega (arith, due', small)) in
    (
      n,
      begins 4 now now_timer a m (b ∷ []) [] past e (omega (arith, due))
            (due_end now now_timer m.heap (a ∷ b ∷ []) [] [] (due, (due', tt)) tt tt)
          ∙ go,
    )
