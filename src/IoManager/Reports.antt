-- ===== src/IoManager/Reports.antt =====
-- Events that are reported, or taken away together, keep the counter right.
use raft_kvstorage.Common.{
  ℕ, zero, suc, ◌<◌, ◌≡◌, ◌≢◌, refl, ◌∙◌, Bool, true, false, not, ◌&&◌, ◌||◌, inl, inr, Bool-cases,
  Option-cases, List, [], ◌∷◌, none, some, length, get_elem?, get_elem?-set_self, set, arith,
}
use raft_kvstorage.Raft.Node.{done}
use raft_kvstorage.IoManager.{
  Event, read, write, has, is_none, FdEventContext, removed, IoManager, decrement,
  set_event_context, trigger_event, trigger_if, events_at, cancel_all, ◌>>=◌,
}
use raft_kvstorage.IoManager.Idle.{Report, handle}
use raft_kvstorage.IoManager.Counted.{IsCounted, trigger_event-IsCounted}

removed_other : (c : FdEventContext) → (removed read c).events.writes ≡ c.events.writes
unfolding set_event_context
removed_other c = refl

inside_some :
    (cs : List FdEventContext) (i : ℕ) (c : FdEventContext)
    → get_elem? cs i ≡ some c
    → i < length cs
inside_some [] i c e = cc
inside_some (x ∷ cs) zero c e = omega arith
inside_some (x ∷ cs) (suc i) c e = omega (arith, inside_some cs i c e)

-- What `trigger_if` does where the tables have the event.
abbrev Triggers : Bool → ℕ → Event → IoManager → IoManager → Type 0
Triggers test fd e m n =
    (trigger_if test fd e m ≡ done n)
    × IsCounted n
    × (e ≡ read → (events_at fd n).writes ≡ (events_at fd m).writes)

triggered :
    (fd : ℕ) (e : Event) (m n : IoManager) (c : FdEventContext)
    → get_elem? m.contexts fd ≡ some c
    → trigger_event fd c e m ≡ done n
    → trigger_if true fd e m ≡ done (decrement n)
unfolding trigger_if
triggered fd e m n c at go = ground (arith, at, go)

writes_left :
    (fd : ℕ) (e : Event) (m n : IoManager) (c : FdEventContext)
    → get_elem? m.contexts fd ≡ some c
    → n.contexts ≡ set m.contexts fd (removed e c)
    → e ≡ read
    → (events_at fd (decrement n)).writes ≡ (events_at fd m).writes
unfolding decrement
writes_left fd e m n c at changed same =
    let first = get_elem?-set_self m.contexts fd (removed e c) (inside_some m.contexts fd c at) in
    let now : get_elem? n.contexts fd ≡ some (removed e c) = rw changed first in
    let flag' : (removed e c).events.writes ≡ c.events.writes = rw same (removed_other c) in
    ground (arith, now, at, flag')

trigger_if-IsCounted :
    (test : Bool) (fd : ℕ) (e : Event) (m : IoManager)
    → IsCounted m
    → (test ≡ true → has e (events_at fd m) ≡ true)
    → (n : IoManager) × Triggers test fd e m n
unfolding trigger_if
trigger_if-IsCounted false fd e m i here = (m, (refl, i, λ same. refl))
trigger_if-IsCounted true fd e m i here = elim (Option-cases (get_elem? m.contexts fd)) [
  | inl out ↦ absurd (unknown e (here refl) out)
  | inr (c, at) ↦
      let on = known e c (here refl) at in
      let (n, go, j, changed) = trigger_event-IsCounted fd c e m i at on in
      (decrement n, (triggered fd e m n c at go, j, writes_left fd e m n c at changed))
]
  where
    unknown : (e : Event) → has e (events_at fd m) ≡ true → get_elem? m.contexts fd ≢ none
    unknown read on out = ground (arith, on, out)
    unknown write on out = ground (arith, on, out)

    known :
        (e : Event) (c : FdEventContext)
        → has e (events_at fd m) ≡ true
        → get_elem? m.contexts fd ≡ some c
        → has e c.events ≡ true
    known read c on at = ground (arith, on, at)
    known write c on at = ground (arith, on, at)

both :
    (test test' : Bool) (fd : ℕ) (m : IoManager)
    → IsCounted m
    → (test ≡ true → (events_at fd m).reads ≡ true)
    → (test' ≡ true → (events_at fd m).writes ≡ true)
    → (n : IoManager) × ((trigger_if test fd read m >>= λ n. trigger_if test' fd write n) ≡ done n)
      × IsCounted n
both test test' fd m i reads writes =
    let (n, (go, j, same)) = trigger_if-IsCounted test fd read m i reads in
    let (o, (go', k, _)) = trigger_if-IsCounted test' fd write n j (λ on. same refl ∙ writes on) in
    (o, rw go go', k)

-- The tables have every event that is reported.
abbrev pub Current : Report → IoManager → Type 0
Current r m =
    (r.input ≡ true → (events_at r.fd m).reads ≡ true)
    × (r.output ≡ true → (events_at r.fd m).writes ≡ true)

-- A report of events that are still registered is dealt with.
pub handle-IsCounted :
    (r : Report) (success : Bool) (m : IoManager)
    → IsCounted m
    → Current r m
    → (n : IoManager) × (handle r success m ≡ done n) × IsCounted n
unfolding handle
handle-IsCounted r success m i current =
    let now = events_at r.fd m in
    let reads = r.input || (r.broken && now.reads) in
    let writes = r.output || (r.broken && now.writes) in
    let (n, go, j) =
      both reads writes r.fd m i (ground (arith, current.0)) (ground (arith, current.1)) in
    elim (Bool-cases ((is_none now && reads) || not success)) [
      | inl skip ↦ (m, rw skip refl, i)
      | inr on ↦ (n, rw on go, j)
    ]

-- `cancelAll` triggers what is registered for the descriptor.
pub cancel_all-IsCounted :
    (fd : ℕ) (success : Bool) (m : IoManager)
    → IsCounted m
    → (n : IoManager) × (b : Bool) × (cancel_all fd success m ≡ done (n, b)) × IsCounted n
unfolding cancel_all
cancel_all-IsCounted fd success m i = elim (Bool-cases (is_none (events_at fd m) || not success)) [
  | inl skip ↦ (m, false, rw skip refl, i)
  | inr on ↦
      let now = events_at fd m in
      let (n, (go, j, same)) = trigger_if-IsCounted now.reads fd read m i (λ e. e) in
      let (o, (go', k, _)) = trigger_if-IsCounted (events_at fd n).writes fd write n j (λ e. e) in
      (o, true, rw (on, go, go') refl, k)
]
