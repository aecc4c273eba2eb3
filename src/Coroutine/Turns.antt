-- ===== src/Coroutine/Turns.antt =====
-- A turn of a coroutine: it is resumed, and gives the processor back.
use raft_kvstorage.Common.{ℕ, ◌≡◌, ◌≢◌, refl, sym, ap, ◌∙◌, true, none, some, arith}
use mathlib.Core.Path.{fun_ext}
use raft_kvstorage.Raft.Node.{done}
use raft_kvstorage.Coroutine.{
  ready, running, term, Coroutine, Thread, set_coroutine, reset, resume, yield, finish,
}
use raft_kvstorage.Coroutine.Control.{
  IsWorker, switched, left, resume-switched, switched-IsWorker, yield-left, finish-left,
}

-- A ready coroutine that the scheduler's coroutine resumes has the processor and runs; when it yields,
-- the thread, its coroutines and its counters are what they were before.
pub yield-resume :
    (s a : ℕ) (t : Thread)
    → IsWorker s t
    → t.cpu ≡ s
    → a ≢ s
    → (t.heap a).state ≡ ready
    → (u : Thread) × (resume a t ≡ done u)
      × (u.cpu ≡ a)
      × (u.running_coroutine ≡ some a)
      × ((u.heap a).state ≡ running)
      × (yield a u ≡ done t)
unfolding set_coroutine
yield-resume s a t w at ne r =
    let u = switched a t in
    let i = switched-IsWorker s a t w at ne in
    let heap = set_coroutine a (record (u.heap a) { state = ready }) u.heap in
    let same : (b : ℕ) → heap b ≡ t.heap b = λ b. ground (arith, r) in
    let known : some s ≡ t.running_coroutine = ground (arith, w.known, at) in
    (
      u,
      resume-switched s a t w ne r,
      refl,
      refl,
      ground arith,
      yield-left s u i ne ∙ ap done (back heap same known),
    )
  where
    back :
        (heap : ℕ → Coroutine)
        → ((b : ℕ) → heap b ≡ t.heap b)
        → some s ≡ t.running_coroutine
        → left s heap (switched a t) ≡ t
    back heap same known =
        λ i. record t { heap = fun_ext same i; running_coroutine = known i; cpu = sym at i }

-- A coroutine whose function returns is at its end: the scheduler's has the processor, to resume it
-- again does nothing, and `reset` makes it ready with another function.
finish-resume :
    (s a func : ℕ) (t : Thread)
    → IsWorker s t
    → t.cpu ≡ s
    → a ≢ s
    → (t.heap a).state ≡ ready
    → (t.heap a).has_stack ≡ true
    → (u : Thread) × (v : Thread) × (resume a t ≡ done u)
      × (finish u ≡ done v)
      × (v.cpu ≡ s)
      × (resume a v ≡ done v)
      × ((reset func a v).1 ≡ true)
      × (((reset func a v).0.heap a) ≡ record (t.heap a) { func = some func })
unfolding set_coroutine reset resume
finish-resume s a func t w at ne r stack =
    let u = switched a t in
    let i = switched-IsWorker s a t w at ne in
    (
      u,
      left s (set_coroutine a (record (u.heap a) { func = none; state = term }) u.heap) u,
      resume-switched s a t w ne r,
      finish-left s u i ne,
      refl,
      ground arith,
      ground (arith, stack),
      ground (arith, stack, r),
    )
