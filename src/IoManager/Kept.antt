-- ===== src/IoManager/Kept.antt =====
-- Each operation on events keeps the counter right.
use raft_kvstorage.Common.{
  ℕ, ◌+◌, ◌-◌, ◌*◌, ◌/◌, ◌≤◌, ◌<◌, ◌^◌, ◌%◌, ◌≡◌, ◌≢◌, refl, sym, subst, Bool, true, false, inl,
  inr, Bool-cases, Option-cases, none, some, length, length-append, length-replicate, get_elem?,
  get_elem?-some, All-append, All-get_elem?, set, replicate, ltb, arith,
}
use raft_kvstorage.Raft.Node.{done}
use raft_kvstorage.IoManager.{
  Event, read, write, has, put_flag, FdEventContext, new_fd, removed, IoManager, word, decrement,
  get_event_context, set_event_context, trigger_event, expand_context, covering, Adding, AddResult,
  filled, register, add_event, del_event, cancel_event,
}
use raft_kvstorage.IoManager.Counted.{
  flags, HasScheduler, IsCounted, total-append, total-replicate, total-le, All-replicate,
  IsCounted-set, removed-HasScheduler, one_less, trigger_event-IsCounted,
}

expand_context-IsCounted :
    (size : ℕ) (m : IoManager) → size ≤ 2 ^ 32 → IsCounted m → IsCounted (expand_context size m)
unfolding expand_context
expand_context-IsCounted size m le i =
    let extra = replicate (size - length m.contexts) new_fd in
    let grown = length-append m.contexts extra in
    let more = length-replicate (size - length m.contexts) new_fd in
    record {
      counted = omega (
        arith,
        i.counted,
        total-append m.contexts extra,
        total-replicate (size - length m.contexts),
      );
      ready =
          All-append HasScheduler m.contexts extra i.ready
            (All-replicate (size - length m.contexts));
      large = omega (arith, i.large, grown);
      small = omega (arith, i.small, grown, more, le);
    }

filled-HasScheduler :
    (e : Event) (a : Adding) (c : FdEventContext)
    → a.sch ≢ none
    → HasScheduler c
    → HasScheduler (
        set_event_context e
          (filled a (get_event_context e c))
          (record c { events = put_flag e true c.events }))
unfolding set_event_context get_event_context
filled-HasScheduler read a c known h = elim (Option-cases a.func) [
  | inl e ↦ rw e (λ on. known, h.1)
  | inr (f, e) ↦ rw e (λ on. known, h.1)
]
filled-HasScheduler write a c known h = elim (Option-cases a.func) [
  | inl e ↦ rw e (h.0, λ on. known)
  | inr (f, e) ↦ rw e (h.0, λ on. known)
]

filled-flags :
    (e : Event) (a : Adding) (c : FdEventContext)
    → has e c.events ≡ false
    → flags (
        set_event_context e
          (filled a (get_event_context e c))
          (record c { events = put_flag e true c.events }))
      ≡ flags c + 1
unfolding set_event_context get_event_context
filled-flags read a c off = ground arith
filled-flags write a c off = ground arith

register-IsCounted :
    (fd : ℕ) (e : Event) (a : Adding) (c : FdEventContext) (m : IoManager)
    → a.sch ≢ none
    → get_elem? m.contexts fd ≡ some c
    → IsCounted m
    → IsCounted (register fd e a c m).0
unfolding register
register-IsCounted fd e a c m known at i = elim (Bool-cases (has e c.events)) [
  | inl on ↦ rw on i
  | inr off ↦ elim (Bool-cases a.success) [
    | inr failed ↦ rw (off, failed) i
    | inl ok ↦
        rw (off, ok)
          (IsCounted-set m fd ((m.pending + 1) % word) c
            (set_event_context e (filled a (get_event_context e c))
              (record c { events = put_flag e true c.events }))
            m.queues i at
            (filled-HasScheduler e a c known
              (All-get_elem? HasScheduler m.contexts fd c i.ready at))
            (omega (arith, filled-flags e a c off, i.counted, total-le m.contexts, i.small)))
  ]
]

covering-IsCounted :
    (fd : ℕ) (m : IoManager)
    → fd < 2 ^ 31
    → IsCounted m
    → IsCounted (covering fd m) × (fd < length (covering fd m).contexts)
unfolding covering expand_context
covering-IsCounted fd m int i = elim (Bool-cases (ltb fd (length m.contexts))) [
  | inl inside ↦ rw inside (i, ground (arith, inside))
  | inr outside ↦
      let size = fd * 3 / 2 in
      let extra = replicate (size - length m.contexts) new_fd in
      let grown = length-append m.contexts extra in
      let more = length-replicate (size - length m.contexts) new_fd in
      let far : length m.contexts ≤ fd = ground (arith, outside) in
      rw outside (
        expand_context-IsCounted size m (omega (arith, int)) i,
        omega (arith, grown, more, far, i.large),
      )
]

-- `addEvent` at a descriptor that an `int` holds.
pub add_event-IsCounted :
    (fd : ℕ) (e : Event) (a : Adding) (m : IoManager)
    → fd < 2 ^ 31
    → a.sch ≢ none
    → IsCounted m
    → (n : IoManager) × (r : AddResult) × (add_event fd e a m ≡ done (n, r)) × IsCounted n
unfolding add_event
add_event-IsCounted fd e a m int known i =
    let (i', inside) = covering-IsCounted fd m int i in
    let (c, at) = get_elem?-some (covering fd m).contexts fd inside in
    (
      (register fd e a c (covering fd m)).0,
      (register fd e a c (covering fd m)).1,
      rw (at, add_event) refl,
      register-IsCounted fd e a c (covering fd m) known at i',
    )

del_event-some :
    (fd : ℕ) (e : Event) (m : IoManager) (c : FdEventContext)
    → get_elem? m.contexts fd ≡ some c
    → has e c.events ≡ true
    → del_event fd e true m
      ≡ (decrement (record m { contexts = set m.contexts fd (removed e c) }), true)
unfolding del_event
del_event-some fd e m c at on = ground (arith, at, on)

del_event-none :
    (fd : ℕ) (e : Event) (m : IoManager) (c : FdEventContext)
    → get_elem? m.contexts fd ≡ some c
    → has e c.events ≡ false
    → (success : Bool) → del_event fd e success m ≡ (m, false)
unfolding del_event
del_event-none fd e m c at off success = ground (arith, at, off)

-- No event that is not there is counted off by `delEvent`.
pub del_event-IsCounted :
    (fd : ℕ) (e : Event) (success : Bool) (m : IoManager)
    → IsCounted m
    → IsCounted (del_event fd e success m).0
unfolding del_event decrement
del_event-IsCounted fd e success m i = elim (Option-cases (get_elem? m.contexts fd)) [
  | inl out ↦ rw (out, del_event) i
  | inr (c, at) ↦ elim (Bool-cases (has e c.events)) [
    | inr off ↦ subst (λ r. IsCounted r.0) (sym (del_event-none fd e m c at off success)) i
    | inl on ↦ kept c at on success
  ]
]
  where
    kept :
        (c : FdEventContext)
        → get_elem? m.contexts fd ≡ some c
        → has e c.events ≡ true
        → (success : Bool) → IsCounted (del_event fd e success m).0
    kept c at on true =
        subst (λ r. IsCounted r.0) (sym (del_event-some fd e m c at on))
          (IsCounted-set m fd ((m.pending + (word - 1)) % word) c (removed e c) m.queues i at
            (removed-HasScheduler e c (All-get_elem? HasScheduler m.contexts fd c i.ready at))
            (one_less m fd c e i at on))
    kept c at on false = subst IsCounted (ground (arith, at)) i

cancelled :
    (fd : ℕ) (e : Event) (c : FdEventContext) (m n : IoManager)
    → get_elem? m.contexts fd ≡ some c
    → has e c.events ≡ true
    → trigger_event fd c e m ≡ done n
    → cancel_event fd e true m ≡ done (decrement n, true)
unfolding cancel_event
cancelled fd e c m n at on done' = ground (arith, at, on, done')

-- `cancelEvent` always comes to an end of its own.
pub cancel_event-IsCounted :
    (fd : ℕ) (e : Event) (success : Bool) (m : IoManager)
    → IsCounted m
    → (n : IoManager) × (b : Bool) × (cancel_event fd e success m ≡ done (n, b)) × IsCounted n
unfolding cancel_event
cancel_event-IsCounted fd e false m i = (m, false, ground arith, i)
cancel_event-IsCounted fd e true m i = elim (Option-cases (get_elem? m.contexts fd)) [
  | inl out ↦ (m, false, ground (arith, out), i)
  | inr (c, at) ↦ elim (Bool-cases (has e c.events)) [
    | inr off ↦ (m, false, ground (arith, at, off), i)
    | inl on ↦
        let (n, go, j, _) = trigger_event-IsCounted fd c e m i at on in
        (decrement n, true, cancelled fd e c m n at on go, j)
  ]
]
