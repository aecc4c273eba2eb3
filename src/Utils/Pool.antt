-- ===== src/Utils/Pool.antt =====
-- The class threadPool of src/utils.h: its tasks are numbers, and its threads take them under the
-- lock, in any order. `notify_one` is left out: a thread may look at the queue at any time.
use raft_kvstorage.Common.{
  ℕ, ◌+◌, ◌<◌, ◌≡◌, ◌≢◌, ◌⊎◌, inl, inr, Bool-cases, subst, refl, sym, ap, ◌∙◌, Bool, true, false,
  List, [], ◌∷◌, ◌++◌, arith, if◌then◌else◌,
}
use mathlib.Core.List.{append_assoc}

-- `started` are the tasks that threads have begun, in that order; `ended` is the number of threads
-- whose function has returned.
pub record ThreadPool : Type 0 where
  pub tasks : List ℕ
  pub stop : Bool
  pub started : List ℕ
  pub ended : ℕ

-- What happens to a pool: `push`, the destructor's mark, and a thread that takes a task or ends.
pub data PoolEvent : Type 0 where
  pushes : ℕ → PoolEvent
  stops : PoolEvent
  takes : PoolEvent

-- The thread's round: with the mark and without a task it ends; without both it goes on waiting.
unfoldable pub take_round : ThreadPool → ThreadPool
take_round p = elim p.tasks [
  | [] ↦ if p.stop then record p { ended = p.ended + 1 } else p
  | f ∷ rest ↦ record p { tasks = rest; started = p.started ++ f ∷ [] }
]

unfoldable pub happen : PoolEvent → ThreadPool → ThreadPool
unfolding take_round
happen (pushes f) p = record p { tasks = p.tasks ++ f ∷ [] }
happen stops p = record p { stop = true }
happen takes p = take_round p

-- The tasks that events push; the destructor's mark comes after them.
pub data Past (p : ThreadPool) : List ℕ → ThreadPool → Type 0 where
  begin : Past p [] p
  after_push :
      {fs : List ℕ} {q : ThreadPool} (f : ℕ)
      → Past p fs q
      → q.stop ≡ false
      → Past p (fs ++ f ∷ []) (happen (pushes f) q)
  after_stop : {fs : List ℕ} {q : ThreadPool} → Past p fs q → Past p fs (happen stops q)
  after_take : {fs : List ℕ} {q : ThreadPool} → Past p fs q → Past p fs (happen takes q)

abbrev pub new_pool : ThreadPool
new_pool = record { tasks = []; stop = false; started = []; ended = 0 }

-- What holds of a pool at all times, for the tasks `fs` that were pushed.
pub record IsDrained (fs : List ℕ) (p : ThreadPool) : Type 0 where
  pub order : p.started ++ p.tasks ≡ fs
  pub drained : 0 < p.ended → (p.tasks ≡ []) × (p.stop ≡ true)

on_off : {b : Bool} → b ≡ true → b ≢ false
on_off on off = cc

taken-IsDrained :
    (fs : List ℕ) (p : ThreadPool) (ts : List ℕ)
    → p.tasks ≡ ts
    → IsDrained fs p
    → IsDrained fs (happen takes p)
unfolding happen
taken-IsDrained fs p [] e i =
    subst (IsDrained fs) (sym (idle p e))
      (record { order = waits (Bool-cases p.stop); drained = drained' (Bool-cases p.stop) })
  where
    idle :
        (p : ThreadPool)
        → p.tasks ≡ []
        → take_round p ≡ (if p.stop then record p { ended = p.ended + 1 } else p)
    idle p e = ground (arith, e)

    waits :
        (p.stop ≡ true) ⊎ (p.stop ≡ false)
        → (if p.stop then record p { ended = p.ended + 1 } else p).started
            ++ (if p.stop then record p { ended = p.ended + 1 } else p).tasks
          ≡ fs
    waits (inl on) = rw on i.order
    waits (inr off) = rw off i.order

    drained' :
        (p.stop ≡ true) ⊎ (p.stop ≡ false)
        → 0 < (if p.stop then record p { ended = p.ended + 1 } else p).ended
        → ((if p.stop then record p { ended = p.ended + 1 } else p).tasks ≡ [])
          × ((if p.stop then record p { ended = p.ended + 1 } else p).stop ≡ true)
    drained' (inl on) lt = ground (arith, on, e)
    drained' (inr off) lt = absurd (on_off (i.drained (ground (arith, off, lt))).1 off)
taken-IsDrained fs p (f ∷ ts) e i = subst (IsDrained fs) (sym (busy p e)) (record {
  order = append_assoc p.started (f ∷ []) ts ∙ ap (λ xs. p.started ++ xs) (sym e) ∙ i.order;
  drained = λ lt. absurd (cons_none (sym e ∙ (i.drained lt).0));
})
  where
    busy :
        (p : ThreadPool)
        → p.tasks ≡ f ∷ ts
        → take_round p ≡ record p { tasks = ts; started = p.started ++ f ∷ [] }
    busy p e = ground (arith, e)

    cons_none : ◌≢◌ {A = List ℕ} (f ∷ ts) []
    cons_none e' = cc

-- Threads start the tasks in the order in which they were pushed, each once; when a thread has
-- ended, all that were pushed before the destructor's mark have been started.
pub run-IsDrained : {fs : List ℕ} {p : ThreadPool} → Past new_pool fs p → IsDrained fs p
unfolding happen
run-IsDrained begin = record { order = refl; drained = λ lt. absurd (omega (arith, lt)) }
run-IsDrained (after_push {fs} {q} f r off) =
    let i = run-IsDrained r in
    record {
      order = sym (append_assoc q.started q.tasks (f ∷ [])) ∙ ap (λ xs. xs ++ f ∷ []) i.order;
      drained = λ lt. absurd (on_off ((i.drained lt).1) off);
    }
run-IsDrained (after_stop r) =
    let i = run-IsDrained r in record { order = i.order; drained = λ lt. ((i.drained lt).0, refl) }
run-IsDrained (after_take {fs} {q} r) = taken-IsDrained fs q q.tasks refl (run-IsDrained r)
