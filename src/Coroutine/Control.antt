-- ===== src/Coroutine/Control.antt =====
-- Who has the processor.
use raft_kvstorage.Common.{
  ℕ, ◌≡◌, ◌≢◌, ◌<◌, refl, sym, subst, ◌∙◌, true, false, inl, inr, Bool-cases, none, some, arith,
}
use raft_kvstorage.Raft.Node.{done}
use raft_kvstorage.Coroutine.{
  State, ready, running, term, Coroutine, Thread, set_coroutine, construct, reset, resume, yield,
  finish, is_ready,
}

-- A worker thread: its scheduler's coroutine `s`, and the coroutines that it resumes.
pub record IsWorker (s : ℕ) (t : Thread) : Type 0 where
  pub scheduler : t.scheduler_coroutine ≡ some s
  pub known : t.running_coroutine ≡ some t.cpu
  pub alone : (a : ℕ) → (t.heap a).state ≡ running → a ≢ s → t.cpu ≡ a
  pub busy : (t.heap t.cpu).state ≡ running
  pub here : (t.heap s).state ≡ running
  pub old : s < t.fresh
  pub joined : (a : ℕ) → a ≢ s → (t.heap a).in_scheduler ≡ true

-- What happens on such a thread: the scheduler's coroutine makes, resets and resumes others; the
-- one that runs yields or comes to its end.
pub data Step (s : ℕ) : Thread → Thread → Type 0 where
  made : {t u : Thread} (func : ℕ) → t.cpu ≡ s → construct func true true t ≡ done u → Step s t u
  renewed : {t : Thread} (func a : ℕ) → t.cpu ≡ s → a ≢ s → Step s t (reset func a t).0
  resumed : {t u : Thread} (a : ℕ) → t.cpu ≡ s → a ≢ s → resume a t ≡ done u → Step s t u
  yielded : {t u : Thread} → t.cpu ≢ s → yield t.cpu t ≡ done u → Step s t u
  finished : {t u : Thread} → t.cpu ≢ s → finish t ≡ done u → Step s t u

done-injective {ℓ} : {A : Type ℓ} (a b : A) → done a ≡ done b → a ≡ b
done-injective a b e = cc

made-IsWorker :
    (s func : ℕ) (t u : Thread)
    → IsWorker s t
    → t.cpu ≡ s
    → construct func true true t ≡ done u
    → IsWorker s u
unfolding construct set_coroutine
made-IsWorker s func t u w at e = subst (IsWorker s) (done-injective _ u e) (record {
  scheduler = w.scheduler;
  known = w.known;
  alone = λ b on ne. ground (arith, w.alone b, on);
  busy = ground (arith, w.busy, w.old);
  here = ground (arith, w.here, w.old);
  old = omega (arith, w.old);
  joined = λ b ne. ground (arith, w.joined b ne);
})

renewed-IsWorker :
    (s func a : ℕ) (t : Thread) → IsWorker s t → t.cpu ≡ s → a ≢ s → IsWorker s (reset func a t).0
unfolding reset set_coroutine
renewed-IsWorker s func a t w at ne = record {
  scheduler = ground (arith, w.scheduler);
  known = ground (arith, w.known);
  alone = λ b on other. ground (arith, w.alone b, on);
  busy = ground (arith, w.busy);
  here = ground (arith, w.here);
  old = ground (arith, w.old);
  joined = λ b other. ground (arith, w.joined b other);
}

-- The thread after a resume that goes through, and after a yield.
abbrev pub switched : ℕ → Thread → Thread
switched a t = record t {
  heap = set_coroutine a (record (t.heap a) { state = running }) t.heap;
  running_coroutine = some a;
  cpu = a;
}

abbrev pub left : ℕ → (ℕ → Coroutine) → Thread → Thread
left s heap t = record t { heap = heap; running_coroutine = some s; cpu = s }

pub resume-switched :
    (s a : ℕ) (t : Thread)
    → IsWorker s t
    → a ≢ s
    → (t.heap a).state ≡ ready
    → resume a t ≡ done (switched a t)
unfolding resume
resume-switched s a t w ne r = ground (arith, r, w.joined a ne, w.scheduler)

pub switched-IsWorker :
    (s a : ℕ) (t : Thread) → IsWorker s t → t.cpu ≡ s → a ≢ s → IsWorker s (switched a t)
unfolding set_coroutine
switched-IsWorker s a t w at ne = record {
  scheduler = w.scheduler;
  known = refl;
  alone = λ b on other. ground (arith, w.alone b, on);
  busy = ground arith;
  here = ground (arith, w.here);
  old = w.old;
  joined = λ b other. ground (arith, w.joined b other);
}

-- A coroutine other than the scheduler's leaves, in a state that is not RUNNING.
left-IsWorker :
    (s : ℕ) (c : Coroutine) (t : Thread)
    → IsWorker s t
    → t.cpu ≢ s
    → c.state ≢ running
    → c.in_scheduler ≡ true
    → IsWorker s (left s (set_coroutine t.cpu c t.heap) t)
unfolding set_coroutine
left-IsWorker s c t w ne off joined = record {
  scheduler = w.scheduler;
  known = refl;
  alone = λ b on other. absurd (ground (arith, w.alone b, on));
  busy = ground (arith, w.here);
  here = ground (arith, w.here);
  old = w.old;
  joined = λ b other. ground (arith, w.joined b other, joined);
}

pub yield-left :
    (s : ℕ) (t : Thread)
    → IsWorker s t
    → t.cpu ≢ s
    → yield t.cpu t
      ≡ done (left s (set_coroutine t.cpu (record (t.heap t.cpu) { state = ready }) t.heap) t)
unfolding yield
yield-left s t w ne = ground (arith, w.busy, w.joined t.cpu ne, w.scheduler)

pub finish-left :
    (s : ℕ) (t : Thread)
    → IsWorker s t
    → t.cpu ≢ s
    → finish t
      ≡ done (
          left s
            (set_coroutine t.cpu (record (t.heap t.cpu) { func = none; state = term }) t.heap)
            t)
unfolding finish set_coroutine
finish-left s t w ne = ground (arith, w.known, w.joined t.cpu ne, w.scheduler)

is_ready-state : (x : State) → is_ready x ≡ true → x ≡ ready
is_ready-state ready e = refl
is_ready-state running e = cc
is_ready-state term e = cc

resume-other :
    (a : ℕ) (t u : Thread) → is_ready (t.heap a).state ≡ false → resume a t ≡ done u → t ≡ u
unfolding resume
resume-other a t u off e = done-injective t u (ground (arith, off, e))

Step-IsWorker : {s : ℕ} {t u : Thread} → Step s t u → IsWorker s t → IsWorker s u
Step-IsWorker {s} {t} {u} (made func at e) w = made-IsWorker s func t u w at e
Step-IsWorker {s} {t} {u} (renewed func a at ne) w = renewed-IsWorker s func a t w at ne
Step-IsWorker {s} {t} {u} (resumed a at ne e) w = elim (Bool-cases (is_ready (t.heap a).state)) [
  | inr off ↦ subst (IsWorker s) (resume-other a t u off e) w
  | inl on ↦
      let go = resume-switched s a t w ne (is_ready-state (t.heap a).state on) in
      subst (IsWorker s) (done-injective (switched a t) u (sym go ∙ e))
        (switched-IsWorker s a t w at ne)
]
Step-IsWorker {s} {t} {u} (yielded ne e) w =
    let c = record (t.heap t.cpu) { state = ready } in
    subst (IsWorker s)
      (done-injective (left s (set_coroutine t.cpu c t.heap) t) u (sym (yield-left s t w ne) ∙ e))
      (left-IsWorker s c t w ne (λ same. cc) (w.joined t.cpu ne))
Step-IsWorker {s} {t} {u} (finished ne e) w =
    let c = record (t.heap t.cpu) { func = none; state = term } in
    subst (IsWorker s)
      (done-injective (left s (set_coroutine t.cpu c t.heap) t) u (sym (finish-left s t w ne) ∙ e))
      (left-IsWorker s c t w ne (λ same. cc) (w.joined t.cpu ne))

pub data Steps (s : ℕ) (t : Thread) : Thread → Type 0 where
  none_yet : Steps s t t
  more : {u v : Thread} → Steps s t u → Step s u v → Steps s t v

-- On a worker thread the running coroutine is the one that has the processor, at every time, and
-- besides the scheduler's no other coroutine is RUNNING.
pub run-IsWorker : {s : ℕ} {t u : Thread} → IsWorker s t → Steps s t u → IsWorker s u
run-IsWorker w none_yet = w
run-IsWorker w (more r st) = Step-IsWorker st (run-IsWorker w r)
