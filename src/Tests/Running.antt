-- ===== src/Tests/Running.antt =====
-- A worker thread, a queue of tasks and an event table at concrete inputs.
use raft_kvstorage.Common.{
  ◌+◌, ◌≡◌, refl, true, false, List, [], ◌∷◌, All, none, some, set, replicate, ◌==◌, if◌then◌else◌,
  arith,
}
use mathlib.Core.List.Perm as Perm
use raft_kvstorage.Raft.Node.{done}
use raft_kvstorage.Timer.{TimerManager}
use raft_kvstorage.Coroutine.{ready, running, Thread, resume, yield}
use raft_kvstorage.Coroutine.Control.{IsWorker, none_yet, more, resumed, run-IsWorker}
use raft_kvstorage.Coroutine.Turns.{yield-resume}
use raft_kvstorage.Scheduler.{Task, Scheduler}
use raft_kvstorage.Scheduler.Tasks.{World, give, take, act_all, Conserves, act_all-Conserves}
use raft_kvstorage.IoManager.{
  read, Adding, IoManager, FdEventContext, new_fd, add_event, is_none, register,
}
use raft_kvstorage.IoManager.Idle.{new_manager, io_stopping, handle}
use raft_kvstorage.IoManager.Counted.{IsCounted, HasScheduler, total, All-set, All-replicate}
use raft_kvstorage.IoManager.Run.{here, next, adds, run-IsCounted, io_stopping_lem, handle-late}

-- Coroutine 0 is the scheduler's; coroutine 1 is ready to run function 7.
abbrev thread : Thread
thread = record {
  heap = λ a.
      if a == 0
      then record { has_stack = false; func = none; cid = 0; state = running; in_scheduler = false }
      else record { has_stack = true; func = some 7; cid = 1; state = ready; in_scheduler = true };
  fresh = 2;
  running_coroutine = some 0;
  scheduler_coroutine = some 0;
  main_coroutine = some 0;
  new_cid = 2;
  counter = 2;
  cpu = 0;
}

thread-IsWorker : IsWorker 0 thread
thread-IsWorker = record {
  scheduler = refl;
  known = refl;
  alone = λ a on ne. ground arith;
  busy = refl;
  here = refl;
  old = omega arith;
  joined = λ a ne. ground arith;
}

abbrev inside : Thread
inside = record thread {
  heap = λ a. if 1 == a then record (thread.heap 1) { state = running } else thread.heap a;
  running_coroutine = some 1;
  cpu = 1;
}

run-IsWorker_example : IsWorker 0 inside
unfolding resume
run-IsWorker_example =
    run-IsWorker thread-IsWorker (more none_yet (resumed 1 refl (λ e. omega (arith, e)) refl))

yield-resume_example :
    (u : Thread) × (resume 1 thread ≡ done u)
    × (u.cpu ≡ 1)
    × (u.running_coroutine ≡ some 1)
    × ((u.heap 1).state ≡ running)
    × (yield 1 u ≡ done thread)
yield-resume_example = yield-resume 0 1 thread thread-IsWorker refl (λ e. omega (arith, e)) refl

-- The first task is for thread 8, the second one for any.
abbrev tasks : List Task
tasks =
    record { coroutine = some 1; func = none; thread = some 8 }
    ∷ record { coroutine = none; func = some 5; thread = none }
    ∷ []

abbrev scheduler : Scheduler
scheduler = record {
  tasks = [];
  threads = 1;
  threads_num = 1;
  active = 0;
  idle = 0;
  as_worker = false;
  stopped = true;
}

abbrev world : World
world = record { scheduler = scheduler; given = []; out = [] }

act_all-Conserves_example : Conserves (
    act_all
      (give (record { coroutine = none; func = some 5; thread = none }) ∷ take 4 ∷ take 6 ∷ [])
      world)
act_all-Conserves_example =
    act_all-Conserves
      (give (record { coroutine = none; func = some 5; thread = none }) ∷ take 4 ∷ take 6 ∷ [])
      world Perm.nil

-- Function 5 waits for input on descriptor 3.
abbrev waiting : Adding
waiting = record { func = some 5; sch = some 0; running = 1; in_running = true; success = true }

abbrev with_event : IoManager
with_event = (register 3 read waiting new_fd new_manager).0

run-IsCounted_example : IsCounted with_event
unfolding add_event new_manager
run-IsCounted_example = run-IsCounted (next here (adds 3 read waiting (omega arith) (λ e. cc) refl))

-- Descriptor 3 waits for output only.
abbrev output_context : FdEventContext
output_context = record new_fd {
  write_context = record { co = some 1; func = none; sch = some 0 };
  events = record { reads = false; writes = true };
}

abbrev output_only : IoManager
output_only = record {
  contexts = set (replicate 32 new_fd) 3 output_context;
  pending = 1;
  queues = λ s. [];
}

output_only-IsCounted : IsCounted output_only
output_only-IsCounted = record {
  counted = refl;
  ready =
      All-set HasScheduler (replicate 32 new_fd) 3 output_context (All-replicate 32)
        (λ e. cc, λ e. λ e'. cc);
  large = omega arith;
  small = omega arith;
}

handle-late_example :
    (n : IoManager) × (handle
        (record { fd = 3; input = true; output = false; broken = false })
        true
        output_only
      ≡ done n)
    × (n.contexts ≡ output_only.contexts)
    × (n.pending + 1 ≡ total n.contexts)
handle-late_example = handle-late 3 output_context output_only output_only-IsCounted refl refl refl

-- A manager without timers.
abbrev no_timer : TimerManager
no_timer = record {
  heap = λ a. record { next = 0; recurring = false; period = 0; cb = none };
  fresh = 0;
  timers = [];
  tickled = false;
  previous_time = 0;
}

io_stopping_lem_example :
    All (λ c. is_none c.events ≡ true) new_manager.contexts
    × (no_timer.timers ≡ [])
    × (scheduler.tasks ≡ [])
    × (scheduler.active ≡ 0)
    × (scheduler.stopped ≡ true)
unfolding io_stopping new_manager
io_stopping_lem_example = io_stopping_lem 4 no_timer scheduler here (λ a. omega arith) refl
