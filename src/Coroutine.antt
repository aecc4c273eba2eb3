-- ===== src/Coroutine.antt =====
-- The class coroutine of src/cort/coroutine.cpp and src/cort/include/coroutine.h on one thread. The
-- coroutines stand in a heap by address; which context the processor runs is the field `cpu`, and
-- `swapcontext` changes it. What a coroutine's function does between its calls is left out.
pub mod Control
pub mod Turns
use raft_kvstorage.Common.{ℕ, ◌+◌, Bool, true, false, not, Option, none, some, ◌==◌, if◌then◌else◌}
use raft_kvstorage.Raft.Node.{Outcome, done, threw, undefined}

pub data State : Type 0 where
  ready : State
  running : State
  term : State

-- `func` is a function by a number, or none. The main coroutine of a thread has no stack.
pub record Coroutine : Type 0 where
  pub has_stack : Bool
  pub func : Option ℕ
  pub cid : ℕ
  pub state : State
  pub in_scheduler : Bool

-- The variables of a thread, its coroutines, and the two counters of the class.
pub record Thread : Type 0 where
  pub heap : ℕ → Coroutine
  pub fresh : ℕ
  pub running_coroutine : Option ℕ
  pub scheduler_coroutine : Option ℕ
  pub main_coroutine : Option ℕ
  pub new_cid : ℕ
  pub counter : ℕ
  pub cpu : ℕ

abbrev pub is_ready : State → Bool
is_ready ready = true
is_ready running = false
is_ready term = false

abbrev pub runs : State → Bool
runs ready = false
runs running = true
runs term = false

abbrev pub is_term : State → Bool
is_term ready = false
is_term running = false
is_term term = true

unfoldable pub set_coroutine : ℕ → Coroutine → (ℕ → Coroutine) → ℕ → Coroutine
set_coroutine a c heap b = if a == b then c else heap b

-- The constructor with a function; `space` says whether `malloc` finds room for the stack. The new
-- coroutine's address is the old `fresh`.
unfoldable pub construct : ℕ → Bool → Bool → Thread → Outcome Thread
unfolding set_coroutine
construct func in_scheduler space t =
    if space
    then done (record t {
      heap =
          set_coroutine t.fresh
            (record {
              has_stack = true;
              func = some func;
              cid = t.new_cid;
              state = ready;
              in_scheduler = in_scheduler;
            })
            t.heap;
      fresh = t.fresh + 1;
      new_cid = t.new_cid + 1;
      counter = t.counter + 1;
    })
    else threw

-- The constructor without arguments: a main coroutine, which runs. The code leaves `_M_inScheduler`
-- as it is in the memory: `rubbish`.
unfoldable pub construct_main : Bool → Thread → Thread
unfolding set_coroutine
construct_main rubbish t = record t {
  heap =
      set_coroutine t.fresh
        (record {
          has_stack = false;
          func = none;
          cid = t.new_cid;
          state = running;
          in_scheduler = rubbish;
        })
        t.heap;
  fresh = t.fresh + 1;
  running_coroutine = some t.fresh;
  new_cid = t.new_cid + 1;
  counter = t.counter + 1;
}

-- `getRunning`.
unfoldable pub get_running : Bool → Thread → Thread × Option ℕ
unfolding construct_main
get_running rubbish t = elim t.running_coroutine [
  | some a ↦ (t, some a)
  | none ↦
      let u = construct_main rubbish t in
      (record u { main_coroutine = some t.fresh }, u.running_coroutine)
]

-- `reset`, where `getcontext` succeeds.
unfoldable pub reset : ℕ → ℕ → Thread → Thread × Bool
unfolding set_coroutine
reset func a t =
    let c = t.heap a in
    if not c.has_stack then (t, false) else if not (is_term c.state) then (t, false) else (
      record t { heap = set_coroutine a (record c { func = some func; state = ready }) t.heap },
      true,
    )

-- Where a coroutine comes from and goes back to.
abbrev pub other_side : ℕ → Thread → Option ℕ
other_side a t = if (t.heap a).in_scheduler then t.scheduler_coroutine else t.main_coroutine

-- `resume`, where `swapcontext` succeeds; without the other side it goes through a null pointer.
unfoldable pub resume : ℕ → Thread → Outcome Thread
unfolding set_coroutine
resume a t = if not (is_ready (t.heap a).state) then done t else elim (other_side a t) [
  | none ↦ undefined
  | some s ↦ done (record t {
    heap = set_coroutine a (record (t.heap a) { state = running }) t.heap;
    running_coroutine = some a;
    cpu = a;
  })
]

-- `yield`.
unfoldable pub yield : ℕ → Thread → Outcome Thread
unfolding set_coroutine
yield a t = if is_ready (t.heap a).state then done t else elim (other_side a t) [
  | none ↦ undefined
  | some s ↦ done (record t {
    heap =
        if runs (t.heap a).state
        then set_coroutine a (record (t.heap a) { state = ready }) t.heap
        else t.heap;
    running_coroutine = some s;
    cpu = s;
  })
]

-- `_M_main` after the coroutine's function has returned.
unfoldable pub finish : Thread → Outcome Thread
unfolding set_coroutine yield
finish t = elim t.running_coroutine [
  | none ↦ undefined
  | some a ↦
      yield a (record t {
        heap = set_coroutine a (record (t.heap a) { func = none; state = term }) t.heap;
      })
]
