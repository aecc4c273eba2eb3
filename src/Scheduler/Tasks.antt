-- ===== src/Scheduler/Tasks.antt =====
-- No task is lost, and none is taken twice.
use raft_kvstorage.Common.{
  ℕ, ◌≡◌, refl, ap, subst, true, false, not, ◌||◌, inl, inr, Bool-cases, List, [], ◌∷◌, ◌++◌, All,
  Option, none, some, if◌then◌else◌,
}
use mathlib.Core.List.Perm as Perm
use mathlib.Core.List.{Perm, perm_middle, append_assoc}
use raft_kvstorage.Scheduler.{
  Task, Scheduler, is_empty, is_some, add_task, is_other, take_task, fetch,
}

abbrev pub IsOther : ℕ → Task → Type 0
IsOther me t = is_other me t.thread ≡ true

-- What `take_task` makes of a queue: the first task that is not for another thread, without which
-- the queue keeps its order.
pub data Takes (me : ℕ) (ts : List Task) : Option Task → List Task → Type 0 where
  nothing : All (IsOther me) ts → Takes me ts none ts
  taken :
      (before after : List Task) (t : Task)
      → All (IsOther me) before
      → is_other me t.thread ≡ false
      → ts ≡ before ++ t ∷ after
      → Takes me ts (some t) (before ++ after)

-- `_M_schedule` takes the first task that is for no other thread, leaves the others as they stand,
-- and wakes the other threads exactly where a task is left.
take_task_lem :
    (me : ℕ) (ts : List Task)
    → Takes me ts (take_task me ts).0 (take_task me ts).1
      × ((take_task me ts).2 ≡ not (is_empty (take_task me ts).1))
unfolding take_task
take_task_lem me [] = (nothing tt, refl)
take_task_lem me (t ∷ ts) = elim (Bool-cases (is_other me t.thread)) [
  | inl other ↦ rw other (passed other (take_task_lem me ts).0, refl)
  | inr fits ↦ rw fits (taken [] ts t tt fits refl, refl)
]
  where
    passed :
        {o : Option Task} {rest : List Task}
        → is_other me t.thread ≡ true
        → Takes me ts o rest
        → Takes me (t ∷ ts) o (t ∷ rest)
    passed other (nothing all) = nothing (other, all)
    passed other (taken before after k all fits e) =
        taken (t ∷ before) after k (other, all) fits (ap (λ xs. t ∷ xs) e)

-- A scheduler with what was handed to it, and what its threads have taken out.
pub record World : Type 0 where
  pub scheduler : Scheduler
  pub given : List Task
  pub out : List Task

pub data Act : Type 0 where
  give : Task → Act
  take : ℕ → Act

abbrev pub with_task : Option Task → List Task → List Task
with_task none ts = ts
with_task (some t) ts = t ∷ ts

-- Any thread gives a task that has something to run, and any thread of the scheduler takes one.
unfoldable pub act : Act → World → World
unfolding add_task fetch
act (give t) w = record {
  scheduler = (add_task t w.scheduler).0;
  given = if is_some t.coroutine || is_some t.func then t ∷ w.given else w.given;
  out = w.out;
}
act (take me) w = record {
  scheduler = (fetch me w.scheduler).0;
  given = w.given;
  out = with_task (fetch me w.scheduler).1 w.out;
}

unfoldable pub act_all : List Act → World → World
unfolding act
act_all [] w = w
act_all (a ∷ acts) w = act_all acts (act a w)

-- What was given is in the queue or was taken out, as often as it was given.
abbrev pub Conserves : World → Type 0
Conserves w = Perm w.given (w.scheduler.tasks ++ w.out)

give-Conserves : (t : Task) (w : World) → Conserves w → Conserves (act (give t) w)
unfolding act
give-Conserves t w h = elim (Bool-cases (is_some t.coroutine || is_some t.func)) [
  | inr no_work ↦ rw no_work h
  | inl valid ↦
      rw (valid, append_assoc w.scheduler.tasks (t ∷ []) w.out)
        (Perm.trans (Perm.cons t h) (Perm.symm (perm_middle w.scheduler.tasks w.out)))
]

take-Conserves : (me : ℕ) (w : World) → Conserves w → Conserves (act (take me) w)
unfolding act
take-Conserves me w h = moved (take_task_lem me w.scheduler.tasks).0
  where
    moved :
        {o : Option Task} {rest : List Task}
        → Takes me w.scheduler.tasks o rest
        → Perm w.given (rest ++ with_task o w.out)
    moved (nothing all) = h
    moved (taken before after t all fits e) =
        let front = subst (λ ts. Perm w.given (ts ++ w.out)) e h in
        let apart = Perm.append_right w.out (perm_middle before after) in
        Perm.trans front (Perm.trans apart (Perm.symm (perm_middle (before ++ after) w.out)))

-- Whatever the threads do, every task that has something to run is in the queue or was taken out by
-- exactly one of them.
pub act_all-Conserves : (acts : List Act) (w : World) → Conserves w → Conserves (act_all acts w)
unfolding act_all
act_all-Conserves [] w h = h
act_all-Conserves (give t ∷ acts) w h =
    act_all-Conserves acts (act (give t) w) (give-Conserves t w h)
act_all-Conserves (take me ∷ acts) w h =
    act_all-Conserves acts (act (take me) w) (take-Conserves me w h)
