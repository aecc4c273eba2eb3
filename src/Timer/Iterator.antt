-- ===== src/Timer/Iterator.antt =====
-- A step of the loop of `timeoutCallbacks`: the timer that it rearms, and its iterator.
use raft_kvstorage.Common.{
  ℕ, ◌+◌, ◌%◌, ◌≡◌, ◌≢◌, ◌⊎◌, sym, subst, inl, inr, Bool-cases, true, false, List, [], ◌∷◌, Option,
  none, some, arith, ◌==◌,
}
use raft_kvstorage.Timer.{Timer, TimerManager, set_timer, before, insert_timer, erase, word}
use raft_kvstorage.Timer.Due.{begin_timer, successor, rearm}
use raft_kvstorage.Timer.Ordered.{
  listed, IsOrdered, before_irrefl, listed-insert_timer, listed-erase, erase-IsOrdered,
  insert_timer-IsOrdered, set_timer-IsOrdered,
}
use raft_kvstorage.Timer.Managed.{IsManaged, dropped, dropped-IsManaged}

abbrev again : ℕ → ℕ → TimerManager → TimerManager
again now a m =
    let heap = set_timer a (record (m.heap a) { next = (now + (m.heap a).period) % word }) m.heap in
    record m { heap = heap; timers = insert_timer heap a (erase a m.timers) }

again-IsManaged :
    (now a : ℕ) (m : TimerManager)
    → IsManaged m
    → listed a m.timers ≡ true
    → IsManaged (again now a m)
unfolding set_timer
again-IsManaged now a m i inside =
    let u = record (m.heap a) { next = (now + (m.heap a).period) % word } in
    record {
      held = λ x. ground (
        arith,
        listed-insert_timer (set_timer a u m.heap) x a (erase a m.timers),
        listed-erase x a m.timers,
        i.held x,
        inside,
      );
      ordered = insert_timer-IsOrdered (set_timer a u m.heap) a (erase a m.timers) (
          set_timer-IsOrdered m.heap a u (erase a m.timers)
            (ground (arith, listed-erase a a m.timers))
            (erase-IsOrdered m.heap a m.timers i.ordered));
      made = λ x le. ground (arith, i.made x, i.held a, inside);
    }

rearm-cases :
    (now a : ℕ) (m : TimerManager) → (rearm now a m ≡ again now a m) ⊎ (rearm now a m ≡ dropped a m)
unfolding rearm
rearm-cases now a m = ground arith

pub rearm-IsManaged :
    (now a : ℕ) (m : TimerManager)
    → IsManaged m
    → listed a m.timers ≡ true
    → IsManaged (rearm now a m)
rearm-IsManaged now a m i inside = elim (rearm-cases now a m) [
  | inl e ↦ subst IsManaged (sym e) (again-IsManaged now a m i inside)
  | inr e ↦ subst IsManaged (sym e) (dropped-IsManaged a m i)
]

listed-rearm :
    (now a x : ℕ) (m : TimerManager)
    → x ≢ a
    → listed x m.timers ≡ true
    → listed x (rearm now a m).timers ≡ true
unfolding rearm
listed-rearm now a x m ne inside = ground (
  arith,
  listed-erase x a m.timers,
  listed-insert_timer
      (set_timer a (record (m.heap a) { next = (now + (m.heap a).period) % word }) m.heap) x a
      (erase a m.timers),
)

-- The iterator stands at a timer of the set, or at its end.
abbrev pub Stands : Option ℕ → List ℕ → Type 0
Stands none timers = Unit {0}
Stands (some a) timers = listed a timers ≡ true

abbrev pub Apart : ℕ → Option ℕ → Type 0
Apart a none = Unit {0}
Apart a (some b) = b ≢ a

begin_timer-Stands : (b : ℕ) (bs : List ℕ) → Stands (begin_timer bs) (b ∷ bs)
unfolding listed
begin_timer-Stands b [] = tt
begin_timer-Stands b (c ∷ bs) = ground arith

Stands-behind : (it : Option ℕ) (b : ℕ) (bs : List ℕ) → Stands it bs → Stands it (b ∷ bs)
unfolding listed
Stands-behind none b bs h = tt
Stands-behind (some a) b bs h = ground (arith, h)

pub successor-Stands : (a : ℕ) (bs : List ℕ) → Stands (successor a bs) bs
unfolding successor
successor-Stands a [] = tt
successor-Stands a (b ∷ bs) = elim (Bool-cases (a == b)) [
  | inl eq ↦ rw eq (begin_timer-Stands b bs)
  | inr ne ↦ rw ne (Stands-behind (successor a bs) b bs (successor-Stands a bs))
]

begin_timer-Apart :
    (heap : ℕ → Timer) (b : ℕ) (bs : List ℕ) → IsOrdered heap (b ∷ bs) → Apart b (begin_timer bs)
begin_timer-Apart heap b [] h = tt
begin_timer-Apart heap b (c ∷ bs) h = λ e. clash (before_irrefl heap b) h.0.0 e
  where
    clash : before heap b b ≡ false → before heap b c ≡ true → c ≡ b → ⊥
    clash p q e = cc

pub successor-Apart :
    (heap : ℕ → Timer) (a : ℕ) (bs : List ℕ) → IsOrdered heap bs → Apart a (successor a bs)
unfolding successor
successor-Apart heap a [] h = tt
successor-Apart heap a (b ∷ bs) h = elim (Bool-cases (a == b)) [
  | inl eq ↦
      rw eq (subst (λ x. Apart x (begin_timer bs)) (same a b eq) (begin_timer-Apart heap b bs h))
  | inr ne ↦ rw ne (successor-Apart heap a bs h.1)
]
  where
    same : (a b : ℕ) → (a == b) ≡ true → b ≡ a
    same a b eq = ground (arith, eq)

pub next-Stands :
    (now a : ℕ) (m : TimerManager) (it : Option ℕ)
    → Stands it m.timers
    → Apart a it
    → Stands it (rearm now a m).timers
next-Stands now a m none h ne = tt
next-Stands now a m (some x) h ne = listed-rearm now a x m ne h
