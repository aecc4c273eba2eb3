-- ===== src/KvServer/Acknowledge.antt =====
-- A put from its call to its reply.
use raft_kvstorage.Common.{
  ℕ, ◌<◌, ◌≡◌, refl, ap, subst, sym, ◌∙◌, true, false, [], ◌∷◌, none, some, arith,
}
use raft_kvstorage.Raft.Log.{IsWf}
use raft_kvstorage.KvServer.Replica.{apply_op-rest, may_snapshot_lem}
use raft_kvstorage.KvServer.Delivery.{pop_message-done}
use raft_kvstorage.Raft.Node.{Node, Codec, done, leader, new_command_index, is_leader}
use raft_kvstorage.Raft.Leader.{execute}
use raft_kvstorage.Raft.Apply.{ApplyMessage, command_message}
use raft_kvstorage.Operation.{Op, OpArchive, PutArgs, ok, put_command, load_op, is_put}
use raft_kvstorage.Table.{Table, IsTable, lookup, store, bytes_eq_self, lookup-store}
use raft_kvstorage.KvServer.{
  KvServer, ServerArchive, put_execute, put_queue, put_end, pop_message, try_push2wait, apply_op,
  execute_put_op, duplicate_request, set_chan,
}

module _ {T : Type 0} ⦃t : Table T⦄ (laws : IsTable T) ⦃c : Codec⦄ ⦃sa : ServerArchive⦄
    ⦃a : OpArchive⦄ where
  begun :
      (args : PutArgs) (s : KvServer T)
      → s.raft_node.identity ≡ leader
      → (put_execute args s).1 ≡ some (new_command_index s.raft_node)
  unfolding put_execute execute is_leader
  begun args s l = ground arith

  queued :
      (index : ℕ) (s : KvServer T)
      → s.applied_chan index ≡ none
      → let b = put_queue index s in
        (b.applied_chan index ≡ some [])
        × (b.last_request_id ≡ s.last_request_id)
        × (b.last_snapshot_command_index ≡ s.last_snapshot_command_index)
        × (b.data_table ≡ s.data_table)
  unfolding put_queue set_chan
  queued index s free = ground arith

  -- Nobody waits at the entry's index when it is executed.
  unheard :
      (op : Op) (index : ℕ) (n : Node) (s : KvServer T)
      → s.applied_chan index ≡ none
      → is_put op.operation ≡ true
      → duplicate_request op.client_id op.request_id s ≡ false
      → let u = (try_push2wait op index (record (apply_op op s) { raft_node = n })).0 in
        (u.applied_chan index ≡ none)
        × (u.last_request_id ≡ store op.client_id op.request_id s.last_request_id)
        × (t.find op.key u.data_table ≡ some op.value)
  unfolding try_push2wait apply_op execute_put_op set_chan
  unheard op index n s q p new = ground (arith, laws.find-assign op.key op.value s.data_table)

  -- The wait ends in vain, but the client's record has the put's number.
  ended_late :
      (args : PutArgs) (index : ℕ) (u : KvServer T)
      → u.applied_chan index ≡ some []
      → lookup args.client_id u.last_request_id ≡ some args.request_id
      → (v : KvServer T) × (put_end args index u ≡ done (v, ok)) × (v.data_table ≡ u.data_table)
  unfolding put_end duplicate_request
  ended_late args index u q r =
      (record u { applied_chan = set_chan index none u.applied_chan }, ground (arith, r), refl)

  pushed :
      (op : Op) (index : ℕ) (n : Node) (s : KvServer T)
      → s.applied_chan index ≡ some []
      → is_put op.operation ≡ true
      → duplicate_request op.client_id op.request_id s ≡ false
      → let u = (try_push2wait op index (record (apply_op op s) { raft_node = n })).0 in
        (u.applied_chan index ≡ some (op ∷ [])) × (t.find op.key u.data_table ≡ some op.value)
  unfolding try_push2wait apply_op execute_put_op set_chan
  pushed op index n s q p new = ground (arith, laws.find-assign op.key op.value s.data_table)

  -- The server, its node after a snapshot that it may take of itself, when it has executed a command.
  executed :
      (op : Op) (msg : ApplyMessage) (s : KvServer T)
      → IsWf s.raft_node
      → msg.valid_command ≡ true
      → msg.valid_snapshot ≡ false
      → s.last_snapshot_command_index < msg.command_index
      → load_op msg.command ≡ done op
      → (n : Node) × (pop_message msg s
          ≡ done (try_push2wait op msg.command_index (record (apply_op op s) { raft_node = n })).0)
  executed op msg s w v f lt e =
      let (node_kept, _, _) = apply_op-rest laws op s in
      let (n, kept, _) =
        may_snapshot_lem laws msg.command_index (apply_op op s) (subst IsWf (sym node_kept) w) in
      (n, pop_message-done laws msg op s (record (apply_op op s) { raft_node = n }) v f lt e kept)

  ended :
      (args : PutArgs) (index : ℕ) (u : KvServer T)
      → u.applied_chan index ≡ some (put_command args ∷ [])
      → (v : KvServer T) × (put_end args index u ≡ done (v, ok)) × (v.data_table ≡ u.data_table)
  unfolding put_end put_command
  ended args index u q = (
    record u { applied_chan = set_chan index none u.applied_chan },
    ground (arith, bytes_eq_self args.client_id),
    refl,
  )

  -- What an execution of the entry at a server leaves for the call that waits, or comes later.
  abbrev pub Answers : PutArgs → ℕ → KvServer T → Type 0
  Answers args index u =
      (v : KvServer T) × (put_end args index u ≡ done (v, ok))
      × (t.find args.key v.data_table ≡ some args.value)

  -- The server is to execute the put as the entry at `index`: the client's record is older, and the
  -- last snapshot does not reach the entry.
  pub record Expects (args : PutArgs) (index : ℕ) (s : KvServer T) : Type 0 where
    pub well : IsWf s.raft_node
    pub behind : s.last_snapshot_command_index < index
    pub newer : duplicate_request args.client_id args.request_id s ≡ false

  in_time :
      (args : PutArgs) (index : ℕ) (b : KvServer T)
      → Expects args index b
      → b.applied_chan index ≡ some []
      → load_op (a.encode (put_command args)) ≡ done (put_command args)
      → (u : KvServer T) × (pop_message (command_message index (a.encode (put_command args))) b
          ≡ done u)
        × Answers args index u
  unfolding put_command command_message is_put
  in_time args index b x waits r =
      let command = put_command args in
      let (n, go) =
        executed command (command_message index (a.encode command)) b x.well refl refl x.behind r in
      let (filled, found) = pushed command index n b waits refl x.newer in
      let u = (try_push2wait command index (record (apply_op command b) { raft_node = n })).0 in
      let (v, e, kept) = ended args index u filled in
      (u, go, (v, e, ap (t.find args.key) kept ∙ found))

  too_early :
      (args : PutArgs) (index : ℕ) (b : KvServer T)
      → Expects args index b
      → b.applied_chan index ≡ none
      → load_op (a.encode (put_command args)) ≡ done (put_command args)
      → (u : KvServer T) × (pop_message (command_message index (a.encode (put_command args))) b
          ≡ done u)
        × Answers args index (put_queue index u)
  unfolding put_command command_message is_put
  too_early args index b x free r =
      let command = put_command args in
      let (n, go) =
        executed command (command_message index (a.encode command)) b x.well refl refl x.behind r in
      let (none_there, stored, found) = unheard command index n b free refl x.newer in
      let u = (try_push2wait command index (record (apply_op command b) { raft_node = n })).0 in
      let (q, same, _, table) = queued index u none_there in
      let (v, e, kept) = ended_late args index (put_queue index u) q (
        ap (lookup args.client_id) (same ∙ stored)
        ∙ lookup-store args.client_id args.request_id b.last_request_id) in
      (u, go, (v, e, ap (t.find args.key) (kept ∙ table) ∙ found))

  -- A put that a leader takes gets an index. When its entry comes out of the log at that index, the
  -- put is answered with RAFT_OK and its key has its value: whatever has become of the server
  -- meanwhile, at `b` where the call has made its queue before, which is still empty, and at `e`
  -- where no call waits at the index yet and this one makes its queue afterwards, with nothing
  -- between the execution and the answer. At `b` and `e` the client's record is still older than the
  -- put, which a read of the same client would end, the last snapshot does not reach the entry, and
  -- the log of the node is well formed.
  pub put-Acknowledged :
      (args : PutArgs) (index : ℕ) (s b e : KvServer T)
      → s.raft_node.identity ≡ leader
      → new_command_index s.raft_node ≡ index
      → load_op (a.encode (put_command args)) ≡ done (put_command args)
      → Expects args index b
      → b.applied_chan index ≡ some []
      → Expects args index e
      → e.applied_chan index ≡ none
      → let msg = command_message index (a.encode (put_command args)) in
        ((put_execute args s).1 ≡ some index)
        × ((u : KvServer T) × (pop_message msg b ≡ done u) × Answers args index u)
        × ((u : KvServer T) × (pop_message msg e ≡ done u) × Answers args index (put_queue index u))
  put-Acknowledged args index s b e l place r x waits y free = (
    begun args s l ∙ ap some place,
    in_time args index b x waits r,
    too_early args index e y free r,
  )
