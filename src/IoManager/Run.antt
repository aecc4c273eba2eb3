-- ===== src/IoManager/Run.antt =====
-- The counter over a whole run, what it means that the manager stops, and what a late report does.
use raft_kvstorage.Common.{
  ℕ, zero, suc, ◌+◌, ◌-◌, ◌^◌, ◌<◌, ◌≡◌, ◌≢◌, refl, sym, ◌∙◌, subst, Bool, true, false, List, [],
  ◌∷◌, All, none, some, get_elem?, arith,
}
use raft_kvstorage.Raft.Node.{Outcome, done}
use raft_kvstorage.Timer.{TimerManager, get_next_duration}
use raft_kvstorage.Scheduler.{Scheduler, is_empty}
use raft_kvstorage.IoManager.{
  Event, FdEventContext, IoManager, Adding, AddResult, word, decrement, add_event, del_event,
  cancel_event, cancel_all, is_none,
}
use raft_kvstorage.IoManager.Idle.{Report, handle, io_stopping, new_manager}
use raft_kvstorage.IoManager.Counted.{total, IsCounted, total-le, All-replicate}
use raft_kvstorage.IoManager.Kept.{add_event-IsCounted, del_event-IsCounted, cancel_event-IsCounted}
use raft_kvstorage.IoManager.Reports.{Current, cancel_all-IsCounted, handle-IsCounted}

-- What the threads do with a manager. Events are added by threads that have a scheduler, and a
-- report is dealt with while its events are registered.
pub data Step : IoManager → IoManager → Type 0 where
  adds :
      {m n : IoManager} {r : AddResult} (fd : ℕ) (e : Event) (a : Adding)
      → fd < 2 ^ 31
      → a.sch ≢ none
      → add_event fd e a m ≡ done (n, r)
      → Step m n
  deletes :
      {m : IoManager} (fd : ℕ) (e : Event) (success : Bool) → Step m (del_event fd e success m).0
  cancels :
      {m n : IoManager} {b : Bool} (fd : ℕ) (e : Event) (success : Bool)
      → cancel_event fd e success m ≡ done (n, b)
      → Step m n
  cancels_all :
      {m n : IoManager} {b : Bool} (fd : ℕ) (success : Bool)
      → cancel_all fd success m ≡ done (n, b)
      → Step m n
  handles :
      {m n : IoManager} (r : Report) (success : Bool)
      → Current r m
      → handle r success m ≡ done n
      → Step m n

pub data Reach (m : IoManager) : IoManager → Type 0 where
  here : Reach m m
  next : {n o : IoManager} → Reach m n → Step n o → Reach m o

same_manager :
    {B : Type 0} (m n : IoManager) (b c : B)
    → ◌≡◌ {A = Outcome (IoManager × B)} (done (m, b)) (done (n, c))
    → m ≡ n
same_manager m n b c e = cc

Step-IsCounted : {m n : IoManager} → Step m n → IsCounted m → IsCounted n
Step-IsCounted {m} {n} (adds {r} fd e a int known go) i =
    let (n', r', go', j) = add_event-IsCounted fd e a m int known i in
    subst IsCounted (same_manager n' n r' r (sym go' ∙ go)) j
Step-IsCounted {m} (deletes fd e success) i = del_event-IsCounted fd e success m i
Step-IsCounted {m} {n} (cancels {b} fd e success go) i =
    let (n', b', go', j) = cancel_event-IsCounted fd e success m i in
    subst IsCounted (same_manager n' n b' b (sym go' ∙ go)) j
Step-IsCounted {m} {n} (cancels_all {b} fd success go) i =
    let (n', b', go', j) = cancel_all-IsCounted fd success m i in
    subst IsCounted (same_manager n' n b' b (sym go' ∙ go)) j
Step-IsCounted {m} {n} (handles r success current go) i =
    let (n', go', j) = handle-IsCounted r success m i current in
    subst IsCounted (same_done n' n (sym go' ∙ go)) j
  where
    same_done : (a b : IoManager) → done a ≡ done b → a ≡ b
    same_done a b e = cc

pub new_manager-IsCounted : IsCounted new_manager
unfolding new_manager
new_manager-IsCounted = record {
  counted = refl;
  ready = All-replicate 32;
  large = omega arith;
  small = omega arith;
}

-- From the constructor on, the counter is the number of registered events, where events are added by
-- threads that have a scheduler, and each report is dealt with while the events that it names are
-- still registered.
pub run-IsCounted : {m : IoManager} → Reach new_manager m → IsCounted m
run-IsCounted here = new_manager-IsCounted
run-IsCounted (next r st) = Step-IsCounted st (run-IsCounted r)

no_flags : (cs : List FdEventContext) → total cs ≡ 0 → All (λ c. is_none c.events ≡ true) cs
no_flags [] e = tt
no_flags (c ∷ cs) e = (ground (arith, e), no_flags cs (ground (arith, e)))

no_timers :
    (now : ℕ) (timers : TimerManager) (as' : List ℕ)
    → timers.timers ≡ as'
    → ((a : ℕ) → (timers.heap a).next + 1 < word)
    → (get_next_duration now timers).1 ≡ word - 1
    → as' ≡ []
unfolding get_next_duration
no_timers now timers [] same h e = refl
no_timers now timers (a ∷ as') same h e = absurd (ground (arith, same, h a, e))

empty_eq {ℓ} : {A : Type ℓ} (xs : List A) → is_empty xs ≡ true → xs ≡ []
empty_eq [] e = refl
empty_eq (x ∷ xs) e = cc

-- Provided that events have been added by threads that have a scheduler, and each report has been
-- dealt with while the events that it names were still registered: where the manager says that it
-- stops, no event is registered, no timer waits, and its scheduler is
-- stopped, has no task and no thread that works. The times of timers are below the greatest word.
pub io_stopping_lem :
    (now : ℕ) (timers : TimerManager) (s : Scheduler) {m : IoManager}
    → Reach new_manager m
    → ((a : ℕ) → (timers.heap a).next + 1 < word)
    → io_stopping now timers s m ≡ true
    → All (λ c. is_none c.events ≡ true) m.contexts
      × (timers.timers ≡ [])
      × (s.tasks ≡ [])
      × (s.active ≡ 0)
      × (s.stopped ≡ true)
unfolding io_stopping
io_stopping_lem now timers s {m} r h e =
    let quiet : (get_next_duration now timers).1 ≡ word - 1 = ground (arith, e) in
    (
      no_flags m.contexts (ground (arith, e, (run-IsCounted r).counted)),
      no_timers now timers timers.timers refl h quiet,
      empty_eq s.tasks (ground (arith, e)),
      ground (arith, e),
      ground (arith, e),
    )

late_trigger :
    (fd : ℕ) (c : FdEventContext) (m : IoManager)
    → get_elem? m.contexts fd ≡ some c
    → c.events.reads ≡ false
    → c.events.writes ≡ true
    → handle (record { fd = fd; input = true; output = false; broken = false }) true m
      ≡ done (decrement m)
unfolding handle
late_trigger fd c m at off on = ground (arith, at, off, on)

-- A report of input that comes after another thread has taken the event away, while the descriptor
-- still waits for output, counts off an event that is not there: the counter is one too low.
pub handle-late :
    (fd : ℕ) (c : FdEventContext) (m : IoManager)
    → IsCounted m
    → get_elem? m.contexts fd ≡ some c
    → c.events.reads ≡ false
    → c.events.writes ≡ true
    → (n : IoManager) × (handle
          (record { fd = fd; input = true; output = false; broken = false })
          true
          m
        ≡ done n)
      × (n.contexts ≡ m.contexts)
      × (n.pending + 1 ≡ total n.contexts)
unfolding decrement
handle-late fd c m i at off on =
    let some_event : 0 < total m.contexts = waits m.contexts fd at in
    (
      decrement m,
      late_trigger fd c m at off on,
      refl,
      omega (arith, some_event, i.counted, total-le m.contexts, i.small),
    )
  where
    waits : (cs : List FdEventContext) (i : ℕ) → get_elem? cs i ≡ some c → 0 < total cs
    waits [] i at = cc
    waits (x ∷ cs) zero at = ground (arith, at, on)
    waits (x ∷ cs) (suc i) at = omega (arith, waits cs i at)
