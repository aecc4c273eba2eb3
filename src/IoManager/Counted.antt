-- ===== src/IoManager/Counted.antt =====
-- The counter of pending events against the flags in the tables.
use raft_kvstorage.Common.{
  ℕ, zero, suc, ◌+◌, ◌-◌, ◌*◌, ◌≤◌, ◌^◌, ◌%◌, ◌≡◌, ◌≢◌, refl, subst, Bool, true, inl, inr,
  Option-cases, List, [], ◌∷◌, ◌++◌, All, none, some, length, length-set, get_elem?, All-get_elem?,
  set, replicate, if◌then◌else◌, arith,
}
use mathlib.Core.Option.{some-injective}
use raft_kvstorage.Raft.Node.{done}
use raft_kvstorage.IoManager.{
  Event, read, write, has, FdEventContext, new_fd, removed, IoManager, word, decrement,
  get_event_context, set_event_context, trigger_event, add_task, work_of, Work,
}

abbrev pub flag : Bool → ℕ
flag b = if b then 1 else 0

abbrev pub flags : FdEventContext → ℕ
flags c = flag c.events.reads + flag c.events.writes

-- How many events are registered.
abbrev pub total : List FdEventContext → ℕ
total [] = 0
total (c ∷ cs) = flags c + total cs

-- Who waits for an event has a scheduler.
abbrev pub HasScheduler : FdEventContext → Type 0
HasScheduler c =
    (c.events.reads ≡ true → c.read_context.sch ≢ none)
    × (c.events.writes ≡ true → c.write_context.sch ≢ none)

pub record IsCounted (m : IoManager) : Type 0 where
  pub counted : m.pending ≡ total m.contexts
  pub ready : All HasScheduler m.contexts
  pub large : 32 ≤ length m.contexts
  pub small : length m.contexts ≤ 2 ^ 32

pub total-set :
    (cs : List FdEventContext) (i : ℕ) (c c' : FdEventContext)
    → get_elem? cs i ≡ some c
    → total (set cs i c') + flags c ≡ total cs + flags c'
total-set [] i c c' e = cc
total-set (x ∷ cs) zero c c' e =
    subst (λ y. flags c' + total cs + flags y ≡ flags x + total cs + flags c')
      (some-injective x c e) (omega arith)
total-set (x ∷ cs) (suc i) c c' e = omega (arith, total-set cs i c c' e)

pub total-append : (cs ds : List FdEventContext) → total (cs ++ ds) ≡ total cs + total ds
total-append [] ds = omega arith
total-append (c ∷ cs) ds = omega (arith, total-append cs ds)

pub total-replicate : (n : ℕ) → total (replicate n new_fd) ≡ 0
total-replicate zero = refl
total-replicate (suc n) = omega (arith, total-replicate n)

pub total-le : (cs : List FdEventContext) → total cs ≤ 2 * length cs
total-le [] = omega arith
total-le (c ∷ cs) = ground (arith, total-le cs)

pub All-set {ℓ} :
    (P : FdEventContext → Type ℓ) (cs : List FdEventContext) (i : ℕ) (c : FdEventContext)
    → All P cs
    → P c
    → All P (set cs i c)
All-set P [] i c h p = tt
All-set P (x ∷ cs) zero c h p = (p, h.1)
All-set P (x ∷ cs) (suc i) c h p = (h.0, All-set P cs i c h.1 p)

pub All-replicate : (n : ℕ) → All HasScheduler (replicate n new_fd)
All-replicate zero = tt
All-replicate (suc n) = ((λ e. cc, λ e. cc), All-replicate n)

-- One context changes, and the counter with it.
pub IsCounted-set :
    (m : IoManager) (fd p : ℕ) (c c' : FdEventContext) (queues : ℕ → List Work)
    → IsCounted m
    → get_elem? m.contexts fd ≡ some c
    → HasScheduler c'
    → p + flags c ≡ m.pending + flags c'
    → IsCounted (record { contexts = set m.contexts fd c'; pending = p; queues = queues })
IsCounted-set m fd p c c' queues i at h e = record {
  counted = omega (arith, total-set m.contexts fd c c' at, e, i.counted);
  ready = All-set HasScheduler m.contexts fd c' i.ready h;
  large = omega (arith, i.large, length-set m.contexts fd c');
  small = omega (arith, i.small, length-set m.contexts fd c');
}

pub removed-flags :
    (e : Event) (c : FdEventContext) → has e c.events ≡ true → flags (removed e c) + 1 ≡ flags c
unfolding set_event_context
removed-flags read c on = ground arith
removed-flags write c on = ground arith

pub removed-HasScheduler :
    (e : Event) (c : FdEventContext) → HasScheduler c → HasScheduler (removed e c)
unfolding set_event_context
removed-HasScheduler read c h = (λ e. cc, h.1)
removed-HasScheduler write c h = (h.0, λ e. cc)

-- The counter of a manager with an event, counted down.
pub one_less :
    (m : IoManager) (fd : ℕ) (c : FdEventContext) (e : Event)
    → IsCounted m
    → get_elem? m.contexts fd ≡ some c
    → has e c.events ≡ true
    → (m.pending + (word - 1)) % word + flags c ≡ m.pending + flags (removed e c)
one_less m fd c e i at on =
    let fewer = removed-flags e c on in
    let whole = total-set m.contexts fd c new_fd at in
    omega (arith, fewer, whole, i.counted, total-le m.contexts, i.small)

-- An event that is on is triggered; with the counter down the tables are in order.
pub trigger_event-IsCounted :
    (fd : ℕ) (c : FdEventContext) (e : Event) (m : IoManager)
    → IsCounted m
    → get_elem? m.contexts fd ≡ some c
    → has e c.events ≡ true
    → (n : IoManager) × (trigger_event fd c e m ≡ done n)
      × IsCounted (decrement n)
      × (n.contexts ≡ set m.contexts fd (removed e c))
unfolding trigger_event decrement
trigger_event-IsCounted fd c e m i at on = elim (Option-cases (get_event_context e c).sch) [
  | inl gone ↦ absurd (waiting e on gone)
  | inr (s, who) ↦
      let queues = add_task s (work_of (get_event_context e c)) m.queues in
      (
        record m { contexts = set m.contexts fd (removed e c); queues = queues },
        rw (on, who, trigger_event) refl,
        IsCounted-set m fd ((m.pending + (word - 1)) % word) c (removed e c) queues i at
            (removed-HasScheduler e c ready) (one_less m fd c e i at on),
        refl,
      )
]
  where
    ready : HasScheduler c
    ready = All-get_elem? HasScheduler m.contexts fd c i.ready at

    waiting : (e : Event) → has e c.events ≡ true → (get_event_context e c).sch ≢ none
    waiting read on = ready.0 on
    waiting write on = ready.1 on
