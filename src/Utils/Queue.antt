-- ===== src/Utils/Queue.antt =====
-- The class safequeue of src/utils.h. Its lock makes each call one step, but for the waits: there
-- other threads run, and what they leave in the queue is given.
use raft_kvstorage.Common.{◌≡◌, refl, sym, ap, ◌∙◌, List, [], ◌∷◌, ◌++◌, Option, none, some}
use mathlib.Core.List.{append_assoc}

-- `push`, and the part of `pop` from where the queue has an element.
unfoldable pub push_back {ℓ} : {A : Type ℓ} → A → List A → List A
push_back a q = q ++ a ∷ []

unfoldable pub pop_front {ℓ} : {A : Type ℓ} → List A → Option A × List A
pop_front [] = (none, [])
pop_front (a ∷ q) = (some a, q)

-- How a wait comes to its end: the time is over, or a wake-up, at which the queue is as it is then.
pub data Wake {ℓ} (A : Type ℓ) : Type ℓ where
  timed_out : List A → Wake A
  woken : List A → Wake A

-- `pop` with a time: the result, what it leaves in the queue, and the wake-ups that it does not use.
-- Every wait has the whole time again.
unfoldable pub pop_in_time {ℓ} : {A : Type ℓ} → List A → List (Wake A) → Option (Option A × List A)
unfolding pop_front
pop_in_time (a ∷ q) wakes = some (some a, q)
pop_in_time [] [] = none
pop_in_time [] (timed_out q ∷ wakes) = some (none, q)
pop_in_time [] (woken q ∷ wakes) = pop_in_time q wakes

-- What threads do with a queue: `push`, and a `pop` that comes to its end.
pub data QueueCall {ℓ} (A : Type ℓ) : Type ℓ where
  pushes : A → QueueCall A
  pops : QueueCall A

-- A queue, what was pushed, and what was popped, each in order.
pub record Traffic {ℓ} (A : Type ℓ) : Type ℓ where
  pub queue : List A
  pub pushed : List A
  pub popped : List A

abbrev pub with_last {ℓ} : {A : Type ℓ} → Option A → List A → List A
with_last none xs = xs
with_last (some a) xs = xs ++ a ∷ []

unfoldable pub use_queue {ℓ} : {A : Type ℓ} → List (QueueCall A) → Traffic A → Traffic A
unfolding push_back pop_front
use_queue [] t = t
use_queue (pushes a ∷ calls) t =
    use_queue calls
      (record { queue = push_back a t.queue; pushed = t.pushed ++ a ∷ []; popped = t.popped })
use_queue (pops ∷ calls) t = use_queue calls (record {
  queue = (pop_front t.queue).1;
  pushed = t.pushed;
  popped = with_last (pop_front t.queue).0 t.popped;
})

popped_first {ℓ} :
    {A : Type ℓ} (q popped : List A)
    → with_last (pop_front q).0 popped ++ (pop_front q).1 ≡ popped ++ q
unfolding pop_front
popped_first [] popped = refl
popped_first (a ∷ q) popped = append_assoc popped (a ∷ []) q

-- What comes out of a queue is what was pushed, in that order, each once, but for what is still in
-- the queue.
use_queue-append {ℓ} :
    {A : Type ℓ} (calls : List (QueueCall A)) (t : Traffic A)
    → t.popped ++ t.queue ≡ t.pushed
    → (use_queue calls t).popped ++ (use_queue calls t).queue ≡ (use_queue calls t).pushed
unfolding use_queue push_back
use_queue-append [] t h = h
use_queue-append (pushes a ∷ calls) t h =
    use_queue-append calls
      (record { queue = push_back a t.queue; pushed = t.pushed ++ a ∷ []; popped = t.popped })
      (sym (append_assoc t.popped t.queue (a ∷ [])) ∙ ap (λ xs. xs ++ a ∷ []) h)
use_queue-append (pops ∷ calls) t h =
    use_queue-append calls
      (record {
        queue = (pop_front t.queue).1;
        pushed = t.pushed;
        popped = with_last (pop_front t.queue).0 t.popped;
      })
      (popped_first t.queue t.popped ∙ h)
