-- ===== src/Tests/Replicas.antt =====
-- Servers that agree, and a put at a server, at concrete inputs.
use raft_kvstorage.Common.{ℕ, ◌≡◌, refl, [], ◌∷◌, none, some, arith, bytes_eq, if◌then◌else◌}
use raft_kvstorage.Raft.Message.{InstallSnapshotArgs}
use raft_kvstorage.Raft.Node.{Node, done, new_command_index}
use raft_kvstorage.Raft.Apply.{ApplyMessage, command_message, snapshot_message}
use raft_kvstorage.Operation.{Op, OpArchive, put, put_command, load_op, is_put}
use raft_kvstorage.Table.{Table, lookup, store}
use raft_kvstorage.SkipList.{empty_list, find, read_value}
use raft_kvstorage.SkipList.Clear.{empty_list-IsSkipList}
use raft_kvstorage.SkipList.Stored.{Stored, stored, stored-IsTable}
use raft_kvstorage.KvServer.{
  KvServer, ServerArchive, pop_message, pop_message_loop, duplicate_request, apply_op,
  execute_command, execute_put_op, may_snapshot, try_push2wait, put_execute, put_queue, dump_server,
  set_chan,
}
use raft_kvstorage.KvServer.Replica.{view, obey_all}
use raft_kvstorage.KvServer.Delivery.{Commands, no_command, command}
use raft_kvstorage.KvServer.Agreement.{replicas_agree}
use raft_kvstorage.KvServer.Acknowledge.{Answers, Expects, put-Acknowledged}
use raft_kvstorage.Tests.Inputs.{codec, leader_node, entry}
use raft_kvstorage.Tests.Serving.{
  Assoc, assoc, assoc-IsTable, put_op, put_args, server, old, leader_node-IsWf,
}

-- Client 9 puts 8 at key 2 after its put of 7 at key 1.
abbrev next_op : Op
next_op = record {
  operation = put;
  key = 2 ∷ [];
  value = 8 ∷ [];
  client_id = 9 ∷ [];
  request_id = 4;
}

-- An archive that knows the two commands by the numbers of their requests.
abbrev ops : OpArchive
ops = record {
  encode = λ c. c.request_id ∷ [];
  decode = λ b. some (if bytes_eq b (4 ∷ []) then next_op else put_op);
}

-- An archive that knows the state after the first one.
abbrev servers : ServerArchive
servers = record {
  encode = λ kvs reqs. 1 ∷ [];
  decode = λ b. some ((1 ∷ [], 7 ∷ []) ∷ [], (9 ∷ [], 3) ∷ []);
}

abbrev message : ℕ → ℕ → ApplyMessage
message i id = command_message i (id ∷ [])

first_put : Commands ⦃a = ops⦄ 0 (message 8 3 ∷ []) (put_op ∷ [])
unfolding load_op command_message bytes_eq
first_put = command (message 8 3) put_op [] [] refl refl (omega arith) refl no_command

next_put : Commands ⦃a = ops⦄ 0 (message 9 4 ∷ []) (next_op ∷ [])
unfolding load_op command_message bytes_eq
next_put = command (message 9 4) next_op [] [] refl refl (omega arith) refl no_command

next_put_there : Commands ⦃a = ops⦄ 8 (message 9 4 ∷ []) (next_op ∷ [])
unfolding load_op command_message bytes_eq
next_put_there = command (message 9 4) next_op [] [] refl refl (omega arith) refl no_command

abbrev after_first : KvServer Assoc
after_first = record (server ((1 ∷ [], 7 ∷ []) ∷ [])) { last_request_id = (9 ∷ [], 3) ∷ [] }

took_first :
    pop_message_loop ⦃t = assoc⦄ ⦃c = codec⦄ ⦃sa = servers⦄ ⦃a = ops⦄ (message 8 3 ∷ []) (server [])
    ≡ done after_first
unfolding pop_message_loop pop_message execute_command apply_op execute_put_op duplicate_request
    may_snapshot try_push2wait load_op command_message is_put store bytes_eq lookup
took_first = refl

-- A server with a skip list, on which every node has one level, and with a bound on the size of the
-- state, so that it takes snapshots of itself.
abbrev listed : Table Stored
listed = stored (λ a. [])

abbrev small : KvServer Stored
small = record {
  data_table = record { list = empty_list; nodes = []; shape = empty_list-IsSkipList };
  last_request_id = (9 ∷ [], 2) ∷ [];
  applied_chan = λ i. none;
  raft_node = leader_node;
  max_raft_state_size = some 0;
  last_snapshot_command_index = 0;
}

abbrev handed_over : InstallSnapshotArgs
handed_over = record { leader_id = 0; term = 2; last_index = 8; last_term = 2; content = 1 ∷ [] }

replicas_agree_example :
    (u : KvServer Assoc) × (u' : KvServer Stored) × (pop_message_loop ⦃t = assoc⦄ ⦃c = codec⦄
        ⦃sa = servers⦄ ⦃a = ops⦄
        (message 9 4 ∷ [])
        after_first
      ≡ done u)
    × (pop_message_loop ⦃t = listed⦄ ⦃c = codec⦄ ⦃sa = servers⦄ ⦃a = ops⦄
          (snapshot_message handed_over ∷ message 9 4 ∷ [])
          small
        ≡ done u')
    × (view ⦃t = assoc⦄ u
        ≡ obey_all (next_op ∷ []) (obey_all (put_op ∷ []) (view ⦃t = assoc⦄ (server []))))
    × (view ⦃t = listed⦄ u' ≡ view ⦃t = assoc⦄ u)
unfolding dump_server read_value find empty_list
replicas_agree_example =
    replicas_agree ⦃t = assoc⦄ ⦃t' = listed⦄ ⦃c = codec⦄ ⦃sa = servers⦄ ⦃a = ops⦄ assoc-IsTable
      (stored-IsTable (λ a. [])) (message 8 3 ∷ []) (message 9 4 ∷ []) (message 9 4 ∷ [])
      (put_op ∷ []) (next_op ∷ []) (server []) after_first small handed_over leader_node-IsWf
      leader_node-IsWf first_put next_put next_put_there took_first (λ e. cc, refl) refl (λ k. refl)

-- The leader's node when entry 8 is committed.
abbrev committed : Node
committed = record leader_node {
  logs = entry 5 1 ∷ entry 6 2 ∷ entry 7 2 ∷ entry 8 2 ∷ [];
  commit_index = 8;
  applied_index = 8;
}

-- The server when the entry comes out of the log, without and with the queue of the call; it takes a
-- snapshot of itself then.
abbrev unqueued : KvServer Assoc
unqueued = record old { raft_node = committed; max_raft_state_size = some 0 }

abbrev queued : KvServer Assoc
queued = record unqueued { applied_chan = set_chan 8 (some []) old.applied_chan }

unqueued-Expects :
    Expects ⦃t = assoc⦄ assoc-IsTable ⦃c = codec⦄ ⦃sa = servers⦄ ⦃a = ops⦄ put_args 8 unqueued
unfolding duplicate_request bytes_eq
unqueued-Expects = record { well = omega arith; behind = omega arith; newer = refl }

queued-Expects :
    Expects ⦃t = assoc⦄ assoc-IsTable ⦃c = codec⦄ ⦃sa = servers⦄ ⦃a = ops⦄ put_args 8 queued
unfolding duplicate_request bytes_eq
queued-Expects = record { well = omega arith; behind = omega arith; newer = refl }

put-Acknowledged_example :
    let msg = command_message 8 (3 ∷ []) in
    ((put_execute ⦃t = assoc⦄ ⦃c = codec⦄ ⦃sa = servers⦄ ⦃a = ops⦄ put_args old).1 ≡ some 8)
    × ((u : KvServer Assoc) × (pop_message ⦃t = assoc⦄ ⦃c = codec⦄ ⦃sa = servers⦄ ⦃a = ops⦄ msg
            queued
          ≡ done u)
        × Answers ⦃t = assoc⦄ assoc-IsTable ⦃c = codec⦄ ⦃sa = servers⦄ ⦃a = ops⦄ put_args 8 u)
    × ((u : KvServer Assoc) × (pop_message ⦃t = assoc⦄ ⦃c = codec⦄ ⦃sa = servers⦄ ⦃a = ops⦄ msg
            unqueued
          ≡ done u)
        × Answers ⦃t = assoc⦄ assoc-IsTable ⦃c = codec⦄ ⦃sa = servers⦄ ⦃a = ops⦄ put_args 8
            (put_queue ⦃t = assoc⦄ ⦃c = codec⦄ ⦃sa = servers⦄ ⦃a = ops⦄ 8 u))
unfolding put_command load_op new_command_index set_chan bytes_eq
put-Acknowledged_example =
    put-Acknowledged ⦃t = assoc⦄ assoc-IsTable ⦃c = codec⦄ ⦃sa = servers⦄ ⦃a = ops⦄ put_args 8 old
      queued unqueued refl refl refl queued-Expects refl unqueued-Expects refl
