-- ===== src/KvServer/Replica.antt =====
-- The server as a replica: what the commands that it takes from `_M_applyChan` make of its table and
-- of its records by client.
use raft_kvstorage.Common.{
  ℕ, ◌+◌, ◌≤◌, ◌<◌, ◌≡◌, ◌≢◌, ◌⊎◌, ◌∙◌, refl, ap, subst, Bool, true, false, not, inl, inr,
  Bool-cases, Option-cases, List, [], ◌∷◌, Option, none, some, Bytes, bytes_eq, bytes_eq_iff, ltb,
  leb, ◌&&◌, arith, if◌then◌else◌,
}
use mathlib.Core.Path.{fun_ext}
use raft_kvstorage.Raft.Node.{Node, Codec, done, map_outcome, valid_index}
use raft_kvstorage.Persister.{load_state_size}
use raft_kvstorage.Raft.Log.{IsWf}
use raft_kvstorage.Raft.Log.Lookup.{log_at-some}
use raft_kvstorage.Raft.Snapshot.{persist}
use raft_kvstorage.Raft.History.WellFormed.{persist-IsWf}
use raft_kvstorage.Operation.{Op, OpArchive, is_put}
use raft_kvstorage.Table.{Table, IsTable, lookup, store, lookup-store, lookup-store_other}
use raft_kvstorage.KvServer.{
  KvServer, ServerArchive, apply_op, execute_put_op, duplicate_request, may_snapshot, try_push2wait,
  dump_server,
}

-- A key-value map, and the number of each client's last request.
pub record View : Type 0 where
  pub values : Bytes → Option Bytes
  pub requests : Bytes → Option ℕ

abbrev pub set_at {ℓ} : {A : Type ℓ} → Bytes → A → (Bytes → Option A) → Bytes → Option A
set_at k a f k' = if bytes_eq k k' then some a else f k'

abbrev pub is_new : Option ℕ → ℕ → Bool
is_new none id = true
is_new (some last) id = ltb last id

-- What a command is to do: a put that is newer than its client's last request sets its key.
abbrev pub obey : Op → View → View
obey c w =
    if is_put c.operation && is_new (w.requests c.client_id) c.request_id
    then record {
      values = set_at c.key c.value w.values;
      requests = set_at c.client_id c.request_id w.requests;
    }
    else w

unfoldable pub obey_all : List Op → View → View
obey_all [] w = w
obey_all (c ∷ cs) w = obey_all cs (obey c w)

abbrev pub view : {T : Type 0} → ⦃t : Table T⦄ → KvServer T → View
view ⦃t = t⦄ s = record {
  values = λ k. t.find k s.data_table;
  requests = λ k. lookup k s.last_request_id;
}

other_keys : (k k' : Bytes) → bytes_eq k k' ≡ false → k ≢ k'
other_keys k k' ne e = ground (arith, (bytes_eq_iff k k').1 e)

lookup-put :
    {A : Type 0} (k k' : Bytes) (v : A) (m : List (Bytes × A))
    → lookup k' (store k v m) ≡ set_at k v (λ k'. lookup k' m) k'
lookup-put k k' v m = elim (Bool-cases (bytes_eq k k')) [
  | inl e ↦
      rw e (
        subst (λ x. lookup x (store k v m) ≡ some v) ((bytes_eq_iff k k').0 e) (lookup-store k v m))
  | inr ne ↦ rw ne (lookup-store_other k k' v m (other_keys k k' ne))
]

is_new-not :
    (o : Option ℕ) (id : ℕ) → is_new o id ≡ not (elim o [ none ↦ false | some last ↦ leb id last ])
is_new-not none id = refl
is_new-not (some last) id = ground arith

valid_lo : (lo i hi : ℕ) → valid_index (lo + 1) i hi ≡ true → lo < i
unfolding valid_index
valid_lo lo i hi e = ground (arith, e)

valid_hi : (lo i hi : ℕ) → valid_index (lo + 1) i hi ≡ true → i ≤ hi
unfolding valid_index
valid_hi lo i hi e = ground (arith, e)

module _ {T : Type 0} ⦃t : Table T⦄ (laws : IsTable T) ⦃c : Codec⦄ ⦃sa : ServerArchive⦄
    ⦃a : OpArchive⦄ where
  find-put :
      (k k' v : Bytes) (u : T) → t.find k' (t.assign k v u) ≡ set_at k v (λ k'. t.find k' u) k'
  find-put k k' v u = elim (Bool-cases (bytes_eq k k')) [
    | inl e ↦ rw e (
        subst (λ x. t.find x (t.assign k v u) ≡ some v) ((bytes_eq_iff k k').0 e)
          (laws.find-assign k v u))
    | inr ne ↦ rw ne (laws.find-assign_other k k' v u (other_keys k k' ne))
  ]

  execute_put_op-view :
      (op : Op) (s : KvServer T)
      → view (execute_put_op op s) ≡ record {
        values = set_at op.key op.value (view s).values;
        requests = set_at op.client_id op.request_id (view s).requests;
      }
  unfolding execute_put_op
  execute_put_op-view op s = λ i. record {
    values = fun_ext (λ k. find-put op.key k op.value s.data_table) i;
    requests = fun_ext (λ k. lookup-put op.client_id k op.request_id s.last_request_id) i;
  }

  choose :
      (d p n : Bool) (s u : KvServer T) (w : View)
      → n ≡ not d
      → view u ≡ w
      → view (if d then s else if p then u else s) ≡ (if p && n then w else view s)
  choose true true n s u w e h = rw e refl
  choose true false n s u w e h = refl
  choose false true n s u w e h = rw e h
  choose false false n s u w e h = refl

  pub apply_op-view : (op : Op) (s : KvServer T) → view (apply_op op s) ≡ obey op (view s)
  unfolding apply_op duplicate_request
  apply_op-view op s =
      choose (duplicate_request op.client_id op.request_id s) (is_put op.operation)
        (is_new (lookup op.client_id s.last_request_id) op.request_id) s (execute_put_op op s) _
        (is_new-not (lookup op.client_id s.last_request_id) op.request_id)
        (execute_put_op-view op s)

  persist-done :
      (index : ℕ) (shot : Bytes) (s : Node)
      → IsWf s
      → (b : Bool) × ((persist index shot s).1 ≡ done b)
  unfolding persist
  persist-done index shot s w =
      elim (Bool-cases (valid_index (s.last_snapshot_index + 1) index s.commit_index)) [
        | inl e ↦
            let (entry, at, _) =
              log_at-some s index w.contiguous
                (valid_lo s.last_snapshot_index index s.commit_index e)
                (omega (arith, valid_hi s.last_snapshot_index index s.commit_index e)) in
            (true, ground (arith, e, at))
        | inr ne ↦ (false, ground (arith, ne))
      ]

  snapshot-cases :
      (index : ℕ) (s : KvServer T)
      → (may_snapshot index s ≡ done s)
        ⊎ (may_snapshot index s
            ≡ map_outcome
                (λ b. record s { raft_node = (persist index (dump_server s) s.raft_node).0 })
                (persist index (dump_server s) s.raft_node).1)
  unfolding may_snapshot
  snapshot-cases index s = elim (Option-cases s.max_raft_state_size) [
    | inl free ↦ inl (rw free refl)
    | inr (most, e) ↦ elim (Bool-cases (ltb most (load_state_size s.raft_node.disk))) [
      | inl over ↦ inr (rw e (rw over refl))
      | inr fits ↦ inl (rw e (rw fits refl))
    ]
  ]

  -- On a well-formed log a snapshot raises no exception and reads nothing outside the deque, and of
  -- the server it changes the Raft node alone.
  pub may_snapshot_lem :
      (index : ℕ) (s : KvServer T)
      → IsWf s.raft_node
      → (n : Node) × (may_snapshot index s ≡ done (record s { raft_node = n })) × IsWf n
  unfolding may_snapshot
  may_snapshot_lem index s w = elim (snapshot-cases index s) [
    | inl still ↦ (s.raft_node, still, w)
    | inr taken ↦
        let (b, e) = persist-done index (dump_server s) s.raft_node w in
        let kept = record s { raft_node = (persist index (dump_server s) s.raft_node).0 } in
        (
          (persist index (dump_server s) s.raft_node).0,
          taken ∙ ap (map_outcome (λ b. kept)) e,
          persist-IsWf index (dump_server s) s.raft_node w,
        )
  ]

  pub try_push2wait_lem :
      (op : Op) (index : ℕ) (s : KvServer T)
      → let u = (try_push2wait op index s).0 in
        (view u ≡ view s)
        × (u.raft_node ≡ s.raft_node)
        × (u.last_snapshot_command_index ≡ s.last_snapshot_command_index)
  unfolding try_push2wait
  try_push2wait_lem op index s = ground arith

  pub apply_op-rest :
      (op : Op) (s : KvServer T)
      → ((apply_op op s).raft_node ≡ s.raft_node)
        × ((apply_op op s).last_snapshot_command_index ≡ s.last_snapshot_command_index)
        × ((apply_op op s).applied_chan ≡ s.applied_chan)
  unfolding apply_op execute_put_op
  apply_op-rest op s = ground arith
