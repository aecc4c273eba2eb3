-- ===== src/KvServer.antt =====
-- The class kvServer of src/raft/src/core/kvServer.cpp and src/raft/include/core/kvServer.h.
pub mod Acknowledge
pub mod Agreement
pub mod Delivery
pub mod Replica
pub mod Request
pub mod Transfer
use raft_kvstorage.Common.{
  ℕ, Bool, true, false, not, List, [], ◌∷◌, ◌++◌, Option, none, some, Bytes, bytes_eq, ltb, leb,
  ◌==◌, ◌&&◌, if◌then◌else◌,
}
use raft_kvstorage.Persister.{load_state_size}
use raft_kvstorage.Raft.Node.{Node, Codec, Outcome, done, threw, undefined, map_outcome}
use raft_kvstorage.Raft.Leader.{execute}
use raft_kvstorage.Raft.Snapshot.{persist}
use raft_kvstorage.Raft.Apply.{ApplyMessage}
use raft_kvstorage.Operation.{
  Op, OpArchive, GetArgs, PutArgs, Err, ok, no_key, timeout, wrong_leader, GetReply, is_put,
  get_command, put_command, load_op,
}
use raft_kvstorage.Table.{Table, lookup, store}

-- The text archive of boost at a server: the table's contents, itself an archive, and the records
-- by client. `decode` is `none` where the archive throws.
pub record ServerArchive : Type 0 where
  pub encode : List (Bytes × Bytes) → List (Bytes × ℕ) → Bytes
  pub decode : Bytes → Option (List (Bytes × Bytes) × List (Bytes × ℕ))

-- `max_raft_state_size` is `none` for -1; `applied_chan` is the map of the queues on which the calls
-- of `put` wait, by the index of their entry.
pub record KvServer (T : Type 0) : Type 0 where
  pub data_table : T
  pub last_request_id : List (Bytes × ℕ)
  pub applied_chan : ℕ → Option (List Op)
  pub raft_node : Node
  pub max_raft_state_size : Option ℕ
  pub last_snapshot_command_index : ℕ

unfoldable pub set_chan : ℕ → Option (List Op) → (ℕ → Option (List Op)) → ℕ → Option (List Op)
set_chan i q chan j = if i == j then q else chan j

unfoldable pub insert_all {ℓ} :
    {T : Type ℓ} → (Bytes → Bytes → T → T) → List (Bytes × Bytes) → T → T
insert_all insert [] t = t
insert_all insert ((k, v) ∷ kvs) t = insert_all insert kvs (insert k v t)

module _ {T : Type 0} where
  -- `_L_duplicateRequest`.
  unfoldable pub duplicate_request : Bytes → ℕ → KvServer T → Bool
  unfolding lookup
  duplicate_request client request_id s = elim (lookup client s.last_request_id) [
    | none ↦ false
    | some last ↦ leb request_id last
  ]

  -- `_L_tryPush2Wait`.
  unfoldable pub try_push2wait : Op → ℕ → KvServer T → KvServer T × Bool
  unfolding set_chan
  try_push2wait command index s = elim (s.applied_chan index) [
    | none ↦ (s, false)
    | some q ↦
        (record s { applied_chan = set_chan index (some (q ++ command ∷ [])) s.applied_chan }, true)
  ]

  module _ ⦃t : Table T⦄ where
    -- `_L_executePutOp`.
    unfoldable pub execute_put_op : Op → KvServer T → KvServer T
    unfolding store
    execute_put_op command s = record s {
      data_table = t.assign command.key command.value s.data_table;
      last_request_id = store command.client_id command.request_id s.last_request_id;
    }

    -- `_L_executeGetOp`.
    unfoldable pub execute_get_op : Op → KvServer T → KvServer T × Option Bytes
    unfolding store
    execute_get_op command s = (
      record s { last_request_id = store command.client_id command.request_id s.last_request_id },
      t.find command.key s.data_table,
    )

    -- `_L_get` after `waitApplied` came back with `waited`; the last part of its result says whether
    -- `done->Run()`, which sends the reply, is called.
    unfoldable pub get_value : Bool → GetArgs → KvServer T → KvServer T × GetReply × Bool
    unfolding execute_get_op get_command
    get_value waited args s =
        if not waited
        then (s, record { err = timeout; value = [] }, false)
        else let (u, found) = execute_get_op (get_command args) s in
          elim found [
            | none ↦ (u, record { err = no_key; value = [] }, false)
            | some v ↦ (u, record { err = ok; value = v }, true)
          ]

    module _ ⦃c : Codec⦄ ⦃sa : ServerArchive⦄ where
      -- `_M_dump` of a server.
      unfoldable pub dump_server : KvServer T → Bytes
      dump_server s = sa.encode (t.contents s.data_table) s.last_request_id

      -- `_M_load` of a server, with `kvskiplist::load`, which inserts what it reads.
      unfoldable pub load_server : Bytes → KvServer T → Outcome (KvServer T)
      unfolding insert_all
      load_server [] s = done s
      load_server (b ∷ bs) s = elim (sa.decode (b ∷ bs)) [
        | none ↦ threw
        | some (kvs, requests) ↦ done (record s {
          data_table = insert_all t.insert kvs s.data_table;
          last_request_id = requests;
        })
      ]

      -- `_L_installSnapshot`.
      unfoldable pub install : ApplyMessage → KvServer T → Outcome (KvServer T)
      unfolding load_server
      install msg s = elim (load_server msg.snapshot s) [
        | done u ↦ done (record u { last_snapshot_command_index = msg.snapshot_index })
        | threw ↦ threw
        | undefined ↦ undefined
      ]

      -- `_L_maySnapshot`.
      unfoldable pub may_snapshot : ℕ → KvServer T → Outcome (KvServer T)
      unfolding dump_server load_state_size
      may_snapshot index s = elim s.max_raft_state_size [
        | none ↦ done s
        | some most ↦
            let kept = persist index (dump_server s) s.raft_node in
            if ltb most (load_state_size s.raft_node.disk)
            then map_outcome (λ b. record s { raft_node = kept.0 }) kept.1
            else done s
      ]

      module _ ⦃a : OpArchive⦄ where
        -- The part of `_L_executeCommand` that changes the table.
        unfoldable pub apply_op : Op → KvServer T → KvServer T
        unfolding duplicate_request is_put execute_put_op
        apply_op command s =
            if duplicate_request command.client_id command.request_id s
            then s
            else if is_put command.operation
            then execute_put_op command s
            else s

        -- `_L_executeCommand`.
        unfoldable pub execute_command : ApplyMessage → KvServer T → Outcome (KvServer T)
        unfolding load_op apply_op may_snapshot try_push2wait
        execute_command msg s =
            if leb msg.command_index s.last_snapshot_command_index
            then done s
            else elim (load_op msg.command) [
              | done command ↦
                  map_outcome (λ u. (try_push2wait command msg.command_index u).0)
                    (may_snapshot msg.command_index (apply_op command s))
              | threw ↦ threw
              | undefined ↦ undefined
            ]

        -- One round of `_L_popMessageLoop`.
        unfoldable pub pop_message : ApplyMessage → KvServer T → Outcome (KvServer T)
        unfolding execute_command install
        pop_message msg s = elim (if msg.valid_command then execute_command msg s else done s) [
          | done u ↦ if msg.valid_snapshot then install msg u else done u
          | threw ↦ threw
          | undefined ↦ undefined
        ]

        unfoldable pub pop_message_loop : List ApplyMessage → KvServer T → Outcome (KvServer T)
        unfolding pop_message
        pop_message_loop [] s = done s
        pop_message_loop (msg ∷ msgs) s = elim (pop_message msg s) [
          | done u ↦ pop_message_loop msgs u
          | threw ↦ threw
          | undefined ↦ undefined
        ]

        -- The first part of `_L_put`: the index of the entry, or `none` when the reply is already
        -- RAFT_ERR_WRONG_LEADER. Other threads may run before the second part.
        unfoldable pub put_execute : PutArgs → KvServer T → KvServer T × Option ℕ
        unfolding put_command execute
        put_execute args s =
            let (n, place) = execute (a.encode (put_command args)) s.raft_node in
            (record s { raft_node = n }, elim place [ none ↦ none | some (index, _) ↦ some index ])

        -- The second part: the queue on which the call then waits.
        unfoldable pub put_queue : ℕ → KvServer T → KvServer T
        unfolding set_chan
        put_queue index s = elim (s.applied_chan index) [
          | none ↦ record s { applied_chan = set_chan index (some []) s.applied_chan }
          | some q ↦ s
        ]

        -- `_L_put` from the end of the wait on: it came back with what the queue holds, or in vain
        -- where the queue is empty. The queue is then removed; where it was removed by another call
        -- before, the code uses a queue that is deleted.
        unfoldable pub put_end : PutArgs → ℕ → KvServer T → Outcome (KvServer T × Err)
        unfolding put_command duplicate_request set_chan
        put_end args index s = elim (s.applied_chan index) [
          | none ↦ undefined
          | some [] ↦ done (
            record s { applied_chan = set_chan index none s.applied_chan },
            if duplicate_request args.client_id args.request_id s then ok else wrong_leader,
          )
          | some (got ∷ q) ↦ done (
            record s { applied_chan = set_chan index none s.applied_chan },
            if bytes_eq got.client_id args.client_id && got.request_id == args.request_id
                then ok
                else wrong_leader,
          )
        ]
