-- ===== src/Scheduler.antt =====
-- The class scheduler of src/cort/coroutine.cpp and src/cort/include/coroutine.h: its queue of tasks,
-- its counters and the rounds of `_M_schedule`. The lock makes each operation one step; thread ids
-- are numbers, and `none` stands for -1.
pub mod Tasks
use raft_kvstorage.Common.{
  ℕ, ◌+◌, ◌-◌, ◌%◌, ◌^◌, Bool, true, false, not, ◌&&◌, ◌||◌, List, [], ◌∷◌, ◌++◌, Option, none,
  some, ◌==◌, if◌then◌else◌,
}
use raft_kvstorage.Raft.Node.{Outcome, done, threw, undefined}
use raft_kvstorage.Coroutine.{Thread, construct, reset, resume, is_term}

-- `scheduler::task`: a coroutine by its address, or a function by a number.
pub record Task : Type 0 where
  pub coroutine : Option ℕ
  pub func : Option ℕ
  pub thread : Option ℕ

-- `threads` is the size of `_M_threads`.
pub record Scheduler : Type 0 where
  pub tasks : List Task
  pub threads : ℕ
  pub threads_num : ℕ
  pub active : ℕ
  pub idle : ℕ
  pub as_worker : Bool
  pub stopped : Bool

abbrev pub is_empty {ℓ} : {A : Type ℓ} → List A → Bool
is_empty [] = true
is_empty (x ∷ xs) = false

abbrev pub is_some {ℓ} : {A : Type ℓ} → Option A → Bool
is_some none = false
is_some (some a) = true

-- `_M_addTask`: the second part says that the idle coroutines are to be woken.
unfoldable pub add_task : Task → Scheduler → Scheduler × Bool
add_task t s = (
  if is_some t.coroutine || is_some t.func then record s { tasks = s.tasks ++ t ∷ [] } else s,
  is_empty s.tasks,
)

-- The task is for another thread than `me`.
abbrev pub is_other : ℕ → Option ℕ → Bool
is_other me none = false
is_other me (some thread) = not (me == thread)

-- The loop of `_M_schedule` over the queue: the task that is taken out, the tasks that are left, and
-- whether the other threads are to be woken.
unfoldable pub take_task : ℕ → List Task → Option Task × List Task × Bool
take_task me [] = (none, [], false)
take_task me (t ∷ ts) =
    let rest = take_task me ts in
    if is_other me t.thread then (rest.0, t ∷ rest.1, true) else (some t, ts, not (is_empty ts))

-- The start of a round of `_M_schedule`.
unfoldable pub fetch : ℕ → Scheduler → Scheduler × Option Task × Bool
unfolding take_task
fetch me s =
    let (o, rest, wake) = take_task me s.tasks in
    (record s { tasks = rest; active = if is_some o then s.active + 1 else s.active }, o, wake)

-- Where a round stands while another coroutine has the processor.
pub data Round : Type 0 where
  resumed_task : Round
  resumed_work : Round
  resumed_idle : Round
  ended : Round

-- The coroutine for a function: `work_co` is used again where there is one, else one is made;
-- `space` says whether there is room for its stack.
unfoldable pub work_coroutine : Bool → ℕ → Option ℕ → Thread → Outcome (Thread × ℕ)
unfolding construct reset
work_coroutine space f none t = elim (construct f true space t) [
  | done u ↦ done (u, t.fresh)
  | threw ↦ threw
  | undefined ↦ undefined
]
work_coroutine space f (some a) t = done ((reset f a t).0, a)

abbrev pub entered :
    Round → Scheduler → Option ℕ → Outcome Thread → Outcome (Scheduler × Option ℕ × Thread × Round)
entered r s work_co (done t) = done (s, work_co, t, r)
entered r s work_co threw = threw
entered r s work_co undefined = undefined

-- A round from the task on until it gives the processor away: the coroutine of the task is resumed,
-- or `work_co` with its function, or the idle coroutine `idle_co`; where that one is at its end, so
-- is the loop.
unfoldable pub enter :
    Bool
    → ℕ
    → Option ℕ
    → Option Task
    → Scheduler
    → Thread
    → Outcome (Scheduler × Option ℕ × Thread × Round)
unfolding work_coroutine resume
enter space idle_co work_co none s t =
    if is_term (t.heap idle_co).state
    then done (s, work_co, t, ended)
    else entered resumed_idle (record s { idle = s.idle + 1 }) work_co (resume idle_co t)
enter space idle_co work_co (some k) s t = elim k.coroutine [
  | some a ↦ entered resumed_task s work_co (resume a t)
  | none ↦ elim k.func [
    | some f ↦ elim (work_coroutine space f work_co t) [
      | done (u, a) ↦ entered resumed_work s (some a) (resume a u)
      | threw ↦ threw
      | undefined ↦ undefined
    ]
    | none ↦
        if is_term (t.heap idle_co).state
        then done (s, work_co, t, ended)
        else entered resumed_idle (record s { idle = s.idle + 1 }) work_co (resume idle_co t)
  ]
]

-- A round from where the processor is back: the counters go down, as `size_t`, and `work_co` is
-- given up.
unfoldable pub leave : Round → Option ℕ → Scheduler → Scheduler × Option ℕ
leave resumed_task work_co s = (record s { active = (s.active + (2 ^ 64 - 1)) % 2 ^ 64 }, work_co)
leave resumed_work work_co s = (record s { active = (s.active + (2 ^ 64 - 1)) % 2 ^ 64 }, none)
leave resumed_idle work_co s = (record s { idle = (s.idle + (2 ^ 64 - 1)) % 2 ^ 64 }, work_co)
leave ended work_co s = (s, work_co)

-- `_M_stopping`.
unfoldable pub stopping : Scheduler → Bool
stopping s = s.stopped && is_empty s.tasks && s.active == 0

-- `start`.
unfoldable pub start : Scheduler → Scheduler
start s =
    if s.stopped
    then s
    else if not (s.threads == 0)
    then s
    else record s { threads = s.threads_num }

-- `stop`, up to where the threads are joined: how many times the threads are woken. `is_mine` says
-- that the calling thread's scheduler is this one, `has_main` that there is a scheduler's coroutine
-- for the main thread, which is resumed then.
unfoldable pub stop : Bool → Bool → Scheduler → Scheduler × ℕ
unfolding stopping
stop is_mine has_main s =
    if (s.as_worker && not is_mine) || (is_mine && not s.as_worker)
    then (s, 0)
    else if stopping s
    then (s, 0)
    else (
      record s { stopped = true; threads = 0 },
      if has_main then s.threads_num + 1 else s.threads_num,
    )
