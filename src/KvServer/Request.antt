-- ===== src/KvServer/Request.antt =====
-- The remote call `get` of a server, and what a read does to the puts of its client.
use raft_kvstorage.Common.{◌≤◌, ◌≡◌, ◌↔◌, subst, sym, Bool, true, false, some, arith}
use raft_kvstorage.Raft.Node.{Codec}
use raft_kvstorage.Operation.{Op, OpArchive, GetArgs, ok, is_put}
use raft_kvstorage.Table.{Table, IsTable, lookup, store, lookup-store}
use raft_kvstorage.KvServer.{
  KvServer, ServerArchive, get_value, apply_op, execute_put_op, duplicate_request, execute_get_op,
}

module _ {T : Type 0} ⦃t : Table T⦄ where
  -- The reply to a `get` is sent exactly when the wait came back in time and the key is there; it
  -- holds the key's value, then. In the other cases no reply is sent.
  get_value_iff :
      (waited : Bool) (args : GetArgs) (s : KvServer T)
      → let (u, reply, sent) = get_value waited args s in
        (sent ≡ true)
        ↔ ((waited ≡ true) × (t.find args.key s.data_table ≡ some reply.value) × (reply.err ≡ ok))
  unfolding get_value execute_get_op
  get_value_iff waited args s = (λ h. ground arith, λ h. ground arith)

  module _ (laws : IsTable T) ⦃c : Codec⦄ ⦃sa : ServerArchive⦄ ⦃a : OpArchive⦄ where
    read_first :
        (args : GetArgs) (op : Op) (s : KvServer T)
        → op.client_id ≡ args.client_id
        → op.request_id ≤ args.request_id
        → duplicate_request op.client_id op.request_id
            (record s { last_request_id = store args.client_id args.request_id s.last_request_id })
          ≡ true
    unfolding duplicate_request
    read_first args op s same le =
        let stored =
          subst
            (λ k.
              lookup k (store args.client_id args.request_id s.last_request_id)
              ≡ some args.request_id)
            (sym same) (lookup-store args.client_id args.request_id s.last_request_id) in
        ground (arith, stored)

    -- A read counts as a request of its client on the one server that answers it: a put of the
    -- same client that comes out of the log afterwards, with a number that is not greater, leaves
    -- the table of that server as it is, though without the read it would set its key.
    pub get_value-drops_put :
        (args : GetArgs) (op : Op) (s : KvServer T)
        → is_put op.operation ≡ true
        → op.client_id ≡ args.client_id
        → op.request_id ≤ args.request_id
        → duplicate_request op.client_id op.request_id s ≡ false
        → ((apply_op op (get_value true args s).0).data_table ≡ s.data_table)
          × (t.find op.key (apply_op op s).data_table ≡ some op.value)
    unfolding get_value execute_get_op apply_op execute_put_op
    get_value-drops_put args op s p same le new =
        let old = read_first args op s same le in
        (ground (arith, old), ground (arith, laws.find-assign op.key op.value s.data_table))
