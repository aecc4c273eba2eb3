-- ===== src/IoManager.antt =====
-- The event tables of src/cort/ioman.cpp and src/cort/include/ioman.h. `epoll_ctl` is outside: each
-- call is given whether it succeeds. The locks are left out: a call is one step.
pub mod Idle
pub mod Counted
pub mod Kept
pub mod Reports
pub mod Run
use raft_kvstorage.Common.{
  ℕ, ◌+◌, ◌-◌, ◌*◌, ◌/◌, ◌%◌, ◌^◌, Bool, true, false, not, ◌&&◌, ◌||◌, List, [], ◌∷◌, ◌++◌, Option,
  none, some, length, get_elem?, set, replicate, ltb, leb, ◌==◌, if◌then◌else◌, min,
}
use raft_kvstorage.Raft.Node.{map_outcome, Outcome, done, threw, undefined}
use raft_kvstorage.Scheduler.{Scheduler, stopping}
use raft_kvstorage.Timer.{TimerManager, get_next_duration}

-- `event`, for a single event.
pub data Event : Type 0 where
  read : Event
  write : Event

-- `event`, as a set of flags: READ is the lowest bit, EPOLLIN.
pub record Mask : Type 0 where
  pub reads : Bool
  pub writes : Bool

abbrev pub no_event : Mask
no_event = record { reads = false; writes = false }

abbrev pub has : Event → Mask → Bool
has read m = m.reads
has write m = m.writes

abbrev pub put_flag : Event → Bool → Mask → Mask
put_flag read b m = record m { reads = b }
put_flag write b m = record m { writes = b }

abbrev pub is_none : Mask → Bool
is_none m = not (m.reads || m.writes)

-- `scheduler::task`: a coroutine or a function, each by a number, and the thread it is for.
pub data Work : Type 0 where
  coroutine : ℕ → Work
  function : ℕ → Work
  nothing : Work

-- `eventContext`.
pub record EventContext : Type 0 where
  pub co : Option ℕ
  pub func : Option ℕ
  pub sch : Option ℕ

abbrev pub no_context : EventContext
no_context = record { co = none; func = none; sch = none }

-- `fdEventContext`; the descriptor is its place in the table.
pub record FdEventContext : Type 0 where
  pub read_context : EventContext
  pub write_context : EventContext
  pub events : Mask

abbrev pub new_fd : FdEventContext
new_fd = record { read_context = no_context; write_context = no_context; events = no_event }

-- `fdEventContext::getEventContext`.
unfoldable pub get_event_context : Event → FdEventContext → EventContext
get_event_context read c = c.read_context
get_event_context write c = c.write_context

unfoldable pub set_event_context : Event → EventContext → FdEventContext → FdEventContext
set_event_context read x c = record c { read_context = x }
set_event_context write x c = record c { write_context = x }

-- The context without the flag of `e` and without what waited for it.
abbrev pub removed : Event → FdEventContext → FdEventContext
removed e c = set_event_context e no_context (record c { events = put_flag e false c.events })

-- What a manager keeps. `queues` has what was added to each scheduler, the last one first;
-- `pending` is `_M_pendingCountor`, a `size_t`.
pub record IoManager : Type 0 where
  pub contexts : List FdEventContext
  pub pending : ℕ
  pub queues : ℕ → List Work

abbrev pub word : ℕ
word = 2 ^ 64

-- `_M_pendingCountor` goes down, and around at 0.
unfoldable pub decrement : IoManager → IoManager
decrement m = record m { pending = (m.pending + (word - 1)) % word }

-- `scheduler::addTask`, which leaves out a task without a coroutine and a function.
unfoldable pub add_task : ℕ → Work → (ℕ → List Work) → ℕ → List Work
add_task s nothing queues t = queues t
add_task s (coroutine c) queues t = if s == t then coroutine c ∷ queues t else queues t
add_task s (function f) queues t = if s == t then function f ∷ queues t else queues t

abbrev pub work_of : EventContext → Work
work_of c = elim c.func [
  | some f ↦ function f
  | none ↦ elim c.co [ some x ↦ coroutine x | none ↦ nothing ]
]

-- `fdEventContext::triggerEvent` at the descriptor `fd`; without a scheduler the call goes through
-- a null pointer.
unfoldable pub trigger_event : ℕ → FdEventContext → Event → IoManager → Outcome IoManager
unfolding get_event_context set_event_context add_task
trigger_event fd c e m = if not (has e c.events) then done m else elim (get_event_context e c).sch [
  | none ↦ undefined
  | some s ↦ done (record m {
    contexts = set m.contexts fd (removed e c);
    queues = add_task s (work_of (get_event_context e c)) m.queues;
  })
]

-- `_M_expandContext`.
unfoldable pub expand_context : ℕ → IoManager → IoManager
expand_context size m = record m {
  contexts = m.contexts ++ replicate (size - length m.contexts) new_fd;
}

-- The result of `addEvent`: 0, -1, -2 and -3.
pub data AddResult : Type 0 where
  added : AddResult
  refused : AddResult
  registered : AddResult
  wrong_state : AddResult

-- What `addEvent` is called with: a function or none, the thread's scheduler, the running
-- coroutine and whether its state is RUNNING, and whether `epoll_ctl` succeeds.
pub record Adding : Type 0 where
  pub func : Option ℕ
  pub sch : Option ℕ
  pub running : ℕ
  pub in_running : Bool
  pub success : Bool

abbrev pub filled : Adding → EventContext → EventContext
filled a c = elim a.func [
  | some f ↦ record c { sch = a.sch; func = some f }
  | none ↦ record c { sch = a.sch; co = some a.running }
]

-- `addEvent` from the point where it has the descriptor's context.
unfoldable pub register : ℕ → Event → Adding → FdEventContext → IoManager → IoManager × AddResult
unfolding get_event_context set_event_context
register fd e a c m =
    if has e c.events
    then (m, registered)
    else if not a.success
    then (m, refused)
    else (let c' =
          set_event_context e (filled a (get_event_context e c))
            (record c { events = put_flag e true c.events }) in
        (
          record m { pending = (m.pending + 1) % word; contexts = set m.contexts fd c' },
          elim a.func [ some f ↦ added | none ↦ if a.in_running then added else wrong_state ],
        ))

-- The tables where `addEvent` has made room for the descriptor.
unfoldable pub covering : ℕ → IoManager → IoManager
unfolding expand_context
covering fd m = if ltb fd (length m.contexts) then m else expand_context (fd * 3 / 2) m

-- `addEvent`. A place beyond the table is undefined.
unfoldable pub add_event : ℕ → Event → Adding → IoManager → Outcome (IoManager × AddResult)
unfolding register covering
add_event fd e a m =
    let m' = covering fd m in
    elim (get_elem? m'.contexts fd) [ none ↦ undefined | some c ↦ done (register fd e a c m') ]

-- `delEvent`.
unfoldable pub del_event : ℕ → Event → Bool → IoManager → IoManager × Bool
unfolding set_event_context decrement
del_event fd e success m = elim (get_elem? m.contexts fd) [
  | none ↦ (m, false)
  | some c ↦
      if not (has e c.events) || not success
      then (m, false)
      else (decrement (record m { contexts = set m.contexts fd (removed e c) }), true)
]

-- `cancelEvent`.
unfoldable pub cancel_event : ℕ → Event → Bool → IoManager → Outcome (IoManager × Bool)
unfolding trigger_event decrement
cancel_event fd e success m = elim (get_elem? m.contexts fd) [
  | none ↦ done (m, false)
  | some c ↦
      if not (has e c.events) || not success
      then done (m, false)
      else map_outcome (λ n. (decrement n, true)) (trigger_event fd c e m)
]

-- An event that is counted is triggered and counted off, if `test` holds.
unfoldable pub trigger_if : Bool → ℕ → Event → IoManager → Outcome IoManager
unfolding trigger_event decrement
trigger_if test fd e m = if not test then done m else elim (get_elem? m.contexts fd) [
  | none ↦ undefined
  | some c ↦ map_outcome decrement (trigger_event fd c e m)
]

infixl 5 ◌>>=◌
abbrev pub ◌>>=◌ {ℓ κ} : {A : Type ℓ} {B : Type κ} → Outcome A → (A → Outcome B) → Outcome B
done a >>= f = f a
threw >>= f = threw
undefined >>= f = undefined

abbrev pub events_at : ℕ → IoManager → Mask
events_at fd m = elim (get_elem? m.contexts fd) [ none ↦ no_event | some c ↦ c.events ]

-- `cancelAll`.
unfoldable pub cancel_all : ℕ → Bool → IoManager → Outcome (IoManager × Bool)
unfolding trigger_if
cancel_all fd success m =
    if is_none (events_at fd m) || not success
    then done (m, false)
    else trigger_if (events_at fd m).reads fd read m >>= λ n.
        trigger_if (events_at fd n).writes fd write n >>= λ o. done (o, true)
