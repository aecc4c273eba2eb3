-- ===== src/Tests/Serving.antt =====
-- A server at concrete inputs, with an association list for its table.
use raft_kvstorage.Common.{
  ℕ, ◌≡◌, ◌≢◌, refl, true, List, [], ◌∷◌, Option, none, some, Bytes, arith, bytes_eq,
}
use raft_kvstorage.Raft.Message.{InstallSnapshotArgs}
use raft_kvstorage.Raft.Node.{done}
use raft_kvstorage.Raft.Log.{IsWf}
use raft_kvstorage.Raft.Apply.{ApplyMessage, command_message, snapshot_message}
use raft_kvstorage.Operation.{Op, OpArchive, put, GetArgs, PutArgs, load_op, is_put}
use raft_kvstorage.Table.{Table, IsTable, lookup, store, or_else, lookup-store, lookup-store_other}
use raft_kvstorage.KvServer.{
  KvServer, ServerArchive, pop_message, pop_message_loop, duplicate_request, get_value, apply_op,
  dump_server,
}
use raft_kvstorage.KvServer.Replica.{view, obey_all}
use raft_kvstorage.KvServer.Delivery.{
  Commands, no_command, command, pop_message_loop-view, pop_message_loop_once,
}
use raft_kvstorage.KvServer.Transfer.{install_lem}
use raft_kvstorage.KvServer.Request.{get_value-drops_put}
use raft_kvstorage.Tests.Inputs.{codec, leader_node}

abbrev pub Assoc : Type 0
Assoc = List (Bytes × Bytes)

abbrev add_new : Option Bytes → Bytes → Bytes → Assoc → Assoc
add_new none k v m = store k v m
add_new (some _) k v m = m

abbrev pub assoc : Table Assoc
assoc = record {
  find = lookup;
  assign = store;
  insert = λ k v m. add_new (lookup k m) k v m;
  contents = λ m. m;
}

add_new_same :
    (o : Option Bytes) (k v : Bytes) (m : Assoc)
    → lookup k m ≡ o
    → lookup k (add_new o k v m) ≡ or_else o (some v)
add_new_same none k v m e = lookup-store k v m
add_new_same (some x) k v m e = e

add_new_other :
    (o : Option Bytes) (k k' v : Bytes) (m : Assoc)
    → k ≢ k'
    → lookup k' (add_new o k v m) ≡ lookup k' m
add_new_other none k k' v m ne = lookup-store_other k k' v m ne
add_new_other (some x) k k' v m ne = refl

pub assoc-IsTable : IsTable Assoc ⦃t = assoc⦄
assoc-IsTable = record {
  find-assign = λ k v u. lookup-store k v u;
  find-assign_other = λ k k' v u ne. lookup-store_other k k' v u ne;
  find-insert = λ k v u. add_new_same (lookup k u) k v u refl;
  find-insert_other = λ k k' v u ne. add_new_other (lookup k u) k k' v u ne;
  find-contents = λ k u. refl;
}

-- Client 9 puts 7 at key 1.
abbrev pub put_args : PutArgs
put_args = record { key = 1 ∷ []; value = 7 ∷ []; client_id = 9 ∷ []; request_id = 3 }

abbrev pub put_op : Op
put_op = record {
  operation = put;
  key = 1 ∷ [];
  value = 7 ∷ [];
  client_id = 9 ∷ [];
  request_id = 3;
}

-- An archive that knows that command.
abbrev ops : OpArchive
ops = record { encode = λ c. c.request_id ∷ []; decode = λ b. some put_op }

-- An archive that knows one state: value 5 at key 1, and request 2 of client 9.
abbrev servers : ServerArchive
servers = record {
  encode = λ kvs reqs. 1 ∷ [];
  decode = λ b. some ((1 ∷ [], 5 ∷ []) ∷ [], (9 ∷ [], 2) ∷ []);
}

abbrev pub server : Assoc → KvServer Assoc
server m = record {
  data_table = m;
  last_request_id = (9 ∷ [], 2) ∷ [];
  applied_chan = λ i. none;
  raft_node = leader_node;
  max_raft_state_size = none;
  last_snapshot_command_index = 0;
}

abbrev pub old : KvServer Assoc
old = server ((1 ∷ [], 5 ∷ []) ∷ [])

abbrev message : ℕ → ApplyMessage
message i = command_message i (3 ∷ [])

pub leader_node-IsWf : IsWf leader_node
leader_node-IsWf = omega arith

two_puts : Commands ⦃a = ops⦄ 0 (message 8 ∷ message 9 ∷ []) (put_op ∷ put_op ∷ [])
unfolding load_op command_message
two_puts =
    command (message 8) put_op (message 9 ∷ []) (put_op ∷ []) refl refl (omega arith) refl
      (command (message 9) put_op [] [] refl refl (omega arith) refl no_command)

one_put : Commands ⦃a = ops⦄ 0 (message 12 ∷ []) (put_op ∷ [])
unfolding load_op command_message
one_put = command (message 12) put_op [] [] refl refl (omega arith) refl no_command

pop_message_loop-view_example :
    (u : KvServer Assoc) × (pop_message_loop ⦃t = assoc⦄ ⦃c = codec⦄ ⦃sa = servers⦄ ⦃a = ops⦄
        (message 8 ∷ message 9 ∷ [])
        old
      ≡ done u)
    × IsWf u.raft_node
    × (view ⦃t = assoc⦄ u ≡ obey_all (put_op ∷ put_op ∷ []) (view ⦃t = assoc⦄ old))
pop_message_loop-view_example =
    pop_message_loop-view ⦃t = assoc⦄ assoc-IsTable ⦃c = codec⦄ ⦃sa = servers⦄ ⦃a = ops⦄
      (message 8 ∷ message 9 ∷ []) (put_op ∷ put_op ∷ []) old leader_node-IsWf two_puts

pop_message_loop_once_example :
    (u : KvServer Assoc) × (u' : KvServer Assoc) × (pop_message_loop ⦃t = assoc⦄ ⦃c = codec⦄
        ⦃sa = servers⦄ ⦃a = ops⦄
        (message 8 ∷ message 9 ∷ [])
        old
      ≡ done u)
    × (pop_message ⦃t = assoc⦄ ⦃c = codec⦄ ⦃sa = servers⦄ ⦃a = ops⦄ (message 12) u ≡ done u')
    × (view ⦃t = assoc⦄ u' ≡ view ⦃t = assoc⦄ u)
pop_message_loop_once_example =
    pop_message_loop_once ⦃t = assoc⦄ assoc-IsTable ⦃c = codec⦄ ⦃sa = servers⦄ ⦃a = ops⦄
      (message 8 ∷ message 9 ∷ []) (message 12) put_op (put_op ∷ []) old leader_node-IsWf two_puts
      one_put

-- The other server's table is taken over, but for key 1.
abbrev behind : KvServer Assoc
behind = server ((1 ∷ [], 4 ∷ []) ∷ [])

abbrev taken : InstallSnapshotArgs
taken = record { leader_id = 1; term = 2; last_index = 9; last_term = 2; content = 1 ∷ [] }

install_lem_example :
    (v : KvServer Assoc) × (pop_message ⦃t = assoc⦄ ⦃c = codec⦄ ⦃sa = servers⦄ ⦃a = ops⦄
        (snapshot_message taken)
        behind
      ≡ done v)
    × ((k : Bytes)
        → lookup k v.data_table ≡ or_else (lookup k behind.data_table) (lookup k old.data_table))
    × (v.last_request_id ≡ old.last_request_id)
    × (v.last_snapshot_command_index ≡ 9)
unfolding dump_server
install_lem_example =
    install_lem ⦃t = assoc⦄ assoc-IsTable ⦃c = codec⦄ ⦃sa = servers⦄ ⦃a = ops⦄ taken old behind
      (λ e. cc, refl) refl

abbrev get_args : GetArgs
get_args = record { key = 1 ∷ []; client_id = 9 ∷ []; request_id = 4 }

get_value-drops_put_example :
    ((apply_op ⦃t = assoc⦄ ⦃c = codec⦄ ⦃sa = servers⦄ ⦃a = ops⦄ put_op
        (get_value ⦃t = assoc⦄ true get_args old).0).data_table
      ≡ old.data_table)
    × (lookup
          (1 ∷ [])
          (apply_op ⦃t = assoc⦄ ⦃c = codec⦄ ⦃sa = servers⦄ ⦃a = ops⦄ put_op old).data_table
        ≡ some (7 ∷ []))
unfolding duplicate_request is_put bytes_eq
get_value-drops_put_example =
    get_value-drops_put ⦃t = assoc⦄ assoc-IsTable ⦃c = codec⦄ ⦃sa = servers⦄ ⦃a = ops⦄ get_args
      put_op old refl refl (omega arith) refl
