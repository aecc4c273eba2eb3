-- ===== src/IoManager/Idle.antt =====
-- The idle coroutine of src/cort/ioman.cpp: a round of `_M_idle` after its wait, and the test for
-- the stop.
use raft_kvstorage.Common.{ℕ, ◌-◌, Bool, not, ◌&&◌, ◌||◌, List, [], ◌∷◌, ◌==◌, if◌then◌else◌, min}
use raft_kvstorage.Raft.Node.{Outcome, done}
use raft_kvstorage.Scheduler.{Scheduler, stopping}
use raft_kvstorage.Timer.{TimerManager, get_next_duration}
use raft_kvstorage.IoManager.{
  read, write, is_none, function, IoManager, word, add_task, trigger_if, ◌>>=◌, events_at,
  expand_context,
}

-- What `epoll_wait` reports of a descriptor: input, output, and an error or a hang-up.
pub record Report : Type 0 where
  pub fd : ℕ
  pub input : Bool
  pub output : Bool
  pub broken : Bool

-- The part of `_M_idle` for one report. The test on `NONE == fdCtx->_M_events & triggered` is read
-- as C++ does: the comparison first.
unfoldable pub handle : Report → Bool → IoManager → Outcome IoManager
unfolding trigger_if
handle r success m =
    let now = events_at r.fd m in
    let reads = r.input || (r.broken && now.reads) in
    let writes = r.output || (r.broken && now.writes) in
    if (is_none now && reads) || not success
    then done m
    else trigger_if reads r.fd read m >>= λ n. trigger_if writes r.fd write n

-- The loop over the reports; `epoll_ctl` succeeds where the list says so.
unfoldable pub handle_all : List (Report × Bool) → IoManager → Outcome IoManager
unfolding handle
handle_all [] m = done m
handle_all ((r, success) ∷ rs) m = handle r success m >>= λ n. handle_all rs n

-- How long `_M_idle` waits, in milliseconds; `noNext` is the greatest word.
unfoldable pub wait_time : ℕ → ℕ
wait_time next_duration = if next_duration == word - 1 then 5000 else min next_duration 5000

-- The callbacks of the timers that are due go to the manager's own scheduler `self`.
unfoldable pub add_callbacks : ℕ → List ℕ → IoManager → IoManager
unfolding add_task
add_callbacks self [] m = m
add_callbacks self (f ∷ fs) m =
    add_callbacks self fs (record m { queues = add_task self (function f) m.queues })

-- A round of `_M_idle` after the wait.
unfoldable pub idle_round : ℕ → List ℕ → List (Report × Bool) → IoManager → Outcome IoManager
unfolding add_callbacks handle_all
idle_round self callbacks reports m = handle_all reports (add_callbacks self callbacks m)

-- `_M_stopping`, from the timers and the scheduler that the manager is.
unfoldable pub io_stopping : ℕ → TimerManager → Scheduler → IoManager → Bool
unfolding get_next_duration stopping
io_stopping now timers s m =
    (get_next_duration now timers).1 == word - 1 && m.pending == 0 && stopping s

-- The constructor's tables.
unfoldable pub new_manager : IoManager
unfolding expand_context
new_manager = expand_context 32 (record { contexts = []; pending = 0; queues = λ s. [] })
