-- ===== src/KvServer/Delivery.antt =====
-- Lists of committed commands, as `_L_popMessageLoop` takes them.
use raft_kvstorage.Common.{
  ℕ, ◌<◌, ◌≡◌, refl, ap, subst, sym, ◌∙◌, true, false, inl, inr, Bool-cases, List, [], ◌∷◌,
  bytes_eq, bytes_eq_iff, arith,
}
use raft_kvstorage.Raft.Node.{Codec, done}
use raft_kvstorage.Raft.Log.{IsWf}
use raft_kvstorage.Raft.Apply.{ApplyMessage}
use raft_kvstorage.Operation.{Op, OpArchive, is_put, load_op}
use raft_kvstorage.Table.{Table, IsTable, bytes_eq_self}
use raft_kvstorage.KvServer.{
  KvServer, ServerArchive, apply_op, may_snapshot, try_push2wait, execute_command, pop_message,
  pop_message_loop,
}
use raft_kvstorage.KvServer.Replica.{
  View, view, obey, obey_all, is_new, apply_op-view, may_snapshot_lem, try_push2wait_lem,
  apply_op-rest,
}

module _ ⦃a : OpArchive⦄ where
  -- The messages hold the commands, at indices behind `n`.
  pub data Commands (n : ℕ) : List ApplyMessage → List Op → Type 0 where
    no_command : Commands n [] []
    command :
        (msg : ApplyMessage) (op : Op) (msgs : List ApplyMessage) (ops : List Op)
        → msg.valid_command ≡ true
        → msg.valid_snapshot ≡ false
        → n < msg.command_index
        → load_op msg.command ≡ done op
        → Commands n msgs ops
        → Commands n (msg ∷ msgs) (op ∷ ops)

-- Once a client's record has a command's number, it has that or a later one for good.
stays_old :
    (c d : Op) (w : View)
    → is_new (w.requests c.client_id) c.request_id ≡ false
    → is_new ((obey d w).requests c.client_id) c.request_id ≡ false
stays_old c d w h = elim (Bool-cases (bytes_eq d.client_id c.client_id)) [
  | inl e ↦
      let same = ap w.requests ((bytes_eq_iff d.client_id c.client_id).0 e) in ground (arith, same)
  | inr ne ↦ ground arith
]

all_stay_old :
    (c : Op) (ds : List Op) (w : View)
    → is_new (w.requests c.client_id) c.request_id ≡ false
    → is_new ((obey_all ds w).requests c.client_id) c.request_id ≡ false
unfolding obey_all
all_stay_old c [] w h = h
all_stay_old c (d ∷ ds) w h = all_stay_old c ds (obey d w) (stays_old c d w h)

obeyed :
    (c : Op) (w : View)
    → is_put c.operation ≡ true
    → is_new ((obey c w).requests c.client_id) c.request_id ≡ false
obeyed c w h = ground (arith, bytes_eq_self c.client_id)

-- A command that comes again, whatever came between, does nothing.
pub obey-once :
    (c : Op) (ds : List Op) (w : View) → obey c (obey_all ds (obey c w)) ≡ obey_all ds (obey c w)
obey-once c ds w = elim (Bool-cases (is_put c.operation)) [
  | inl e ↦ ground (arith, all_stay_old c ds (obey c w) (obeyed c w e))
  | inr ne ↦ ground arith
]

module _ {T : Type 0} ⦃t : Table T⦄ (laws : IsTable T) ⦃c : Codec⦄ ⦃sa : ServerArchive⦄
    ⦃a : OpArchive⦄ where
  pub pop_message-done :
      (msg : ApplyMessage) (op : Op) (s m : KvServer T)
      → msg.valid_command ≡ true
      → msg.valid_snapshot ≡ false
      → s.last_snapshot_command_index < msg.command_index
      → load_op msg.command ≡ done op
      → may_snapshot msg.command_index (apply_op op s) ≡ done m
      → pop_message msg s ≡ done (try_push2wait op msg.command_index m).0
  unfolding pop_message execute_command
  pop_message-done msg op s m v f lt e kept = ground (arith, kept)

  pop_message_lem :
      (msg : ApplyMessage) (op : Op) (s : KvServer T)
      → IsWf s.raft_node
      → msg.valid_command ≡ true
      → msg.valid_snapshot ≡ false
      → s.last_snapshot_command_index < msg.command_index
      → load_op msg.command ≡ done op
      → (u : KvServer T) × (pop_message msg s ≡ done u)
        × IsWf u.raft_node
        × (u.last_snapshot_command_index ≡ s.last_snapshot_command_index)
        × (view u ≡ obey op (view s))
  pop_message_lem msg op s w v f lt e =
      let (node_kept, low, _) = apply_op-rest laws op s in
      let (n, kept, w') =
        may_snapshot_lem laws msg.command_index (apply_op op s) (subst IsWf (sym node_kept) w) in
      let m = record (apply_op op s) { raft_node = n } in
      let (same, node_left, index_left) = try_push2wait_lem laws op msg.command_index m in
      (
        (try_push2wait op msg.command_index m).0,
        pop_message-done msg op s m v f lt e kept,
        subst IsWf (sym node_left) w',
        index_left ∙ low,
        same ∙ apply_op-view laws op s,
      )

  pub first_message :
      (msg : ApplyMessage) (msgs : List ApplyMessage) (s u : KvServer T)
      → pop_message msg s ≡ done u
      → pop_message_loop (msg ∷ msgs) s ≡ pop_message_loop msgs u
  unfolding pop_message_loop
  first_message msg msgs s u e = ground (arith, e)

  pub all_taken :
      (msgs : List ApplyMessage) (ops : List Op) (s : KvServer T)
      → IsWf s.raft_node
      → Commands s.last_snapshot_command_index msgs ops
      → (u : KvServer T) × (pop_message_loop msgs s ≡ done u)
        × IsWf u.raft_node
        × (u.last_snapshot_command_index ≡ s.last_snapshot_command_index)
        × (view u ≡ obey_all ops (view s))
  unfolding pop_message_loop obey_all
  all_taken [] [] s wf no_command = (s, refl, wf, refl, refl)
  all_taken [] (op ∷ ops) s wf h = elim h [ ]
  all_taken (msg ∷ msgs) [] s wf h = elim h [ ]
  all_taken (msg ∷ msgs) (op ∷ ops) s wf (command _ _ _ _ v f lt e more) =
      let (u, d, wu, i, w) = pop_message_lem msg op s wf v f lt e in
      let (u', d', wu', i', w') =
        all_taken msgs ops u wu (subst (λ n. Commands n msgs ops) (sym i) more) in
      (u', first_message msg msgs s u d ∙ d', wu', i' ∙ i, w' ∙ ap (obey_all ops) w)

  -- Refinement: a server whose Raft node has a well-formed log takes commands, behind its last
  -- snapshot, without an exception or a read outside the deque, those of its own snapshots included,
  -- and then its table and its records are what the commands make of an abstract key-value map, whose
  -- puts count when they are newer than their client's last request; its log is still well formed.
  pub pop_message_loop-view :
      (msgs : List ApplyMessage) (ops : List Op) (s : KvServer T)
      → IsWf s.raft_node
      → Commands s.last_snapshot_command_index msgs ops
      → (u : KvServer T) × (pop_message_loop msgs s ≡ done u)
        × IsWf u.raft_node
        × (view u ≡ obey_all ops (view s))
  pop_message_loop-view msgs ops s wf h =
      let (u, d, wu, _, w) = all_taken msgs ops s wf h in (u, d, wu, w)

  -- A command that is in the log twice, as when a client sends its put again, changes the server
  -- once: when it comes again, whatever commands came between, tables and records stay the same. The
  -- log of the server's node is well formed, and the messages are behind its last snapshot.
  pub pop_message_loop_once :
      (msgs : List ApplyMessage) (again : ApplyMessage) (op : Op) (ops : List Op) (s : KvServer T)
      → IsWf s.raft_node
      → Commands s.last_snapshot_command_index msgs (op ∷ ops)
      → Commands s.last_snapshot_command_index (again ∷ []) (op ∷ [])
      → (u : KvServer T) × (u' : KvServer T) × (pop_message_loop msgs s ≡ done u)
        × (pop_message again u ≡ done u')
        × (view u' ≡ view u)
  unfolding obey_all
  pop_message_loop_once msgs again op ops s wf first (command _ _ _ _ v f lt e _) =
      let (u, d, wu, i, w) = all_taken msgs (op ∷ ops) s wf first in
      let (u', d', _, _, w') =
        pop_message_lem again op u wu v f (subst (λ n. n < again.command_index) (sym i) lt) e in
      (u, u', d, d', w' ∙ ap (obey op) w ∙ obey-once op ops (view s) ∙ sym w)
