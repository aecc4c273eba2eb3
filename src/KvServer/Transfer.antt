-- ===== src/KvServer/Transfer.antt =====
-- Snapshots of a server: `_M_dump`, `_M_load` and `_L_installSnapshot`.
use raft_kvstorage.Common.{
  ℕ, ◌≡◌, ◌≢◌, refl, ap, subst, sym, ◌∙◌, false, inl, inr, Bool-cases, List, [], ◌∷◌, Option, none,
  some, Bytes, bytes_eq, bytes_eq_iff, arith,
}
use raft_kvstorage.Raft.Node.{Codec, done}
use raft_kvstorage.Raft.Apply.{snapshot_message}
use raft_kvstorage.Raft.Message.{InstallSnapshotArgs}
use raft_kvstorage.Operation.{OpArchive}
use raft_kvstorage.Table.{Table, IsTable, lookup, or_else}
use raft_kvstorage.KvServer.{
  KvServer, ServerArchive, insert_all, dump_server, load_server, install, pop_message,
}

module _ {T : Type 0} ⦃t : Table T⦄ (laws : IsTable T) where
  other_keys : (k k' : Bytes) → bytes_eq k k' ≡ false → k' ≢ k
  other_keys k k' ne e = ground (arith, (bytes_eq_iff k k').1 (sym e))

  or_else_assoc :
      (x : Option Bytes) (y : Bytes) (z : Option Bytes)
      → or_else (or_else x (some y)) z ≡ or_else x (some y)
  or_else_assoc none y z = refl
  or_else_assoc (some x) y z = refl

  pub find-insert_all :
      (k : Bytes) (kvs : List (Bytes × Bytes)) (u : T)
      → t.find k (insert_all t.insert kvs u) ≡ or_else (t.find k u) (lookup k kvs)
  unfolding insert_all lookup
  find-insert_all k [] u = ground arith
  find-insert_all k ((k', v) ∷ kvs) u = elim (Bool-cases (bytes_eq k k')) [
    | inl e ↦
        let found =
          subst (λ x. t.find k (t.insert x v u) ≡ or_else (t.find k u) (some v))
            ((bytes_eq_iff k k').0 e) (laws.find-insert k v u) in
        find-insert_all k kvs (t.insert k' v u)
        ∙ rw found (rw e (or_else_assoc (t.find k u) v (lookup k kvs)))
    | inr ne ↦
        find-insert_all k kvs (t.insert k' v u)
        ∙ rw (laws.find-insert_other k' k v u (other_keys k k' ne)) (rw ne refl)
  ]

  module _ ⦃c : Codec⦄ ⦃sa : ServerArchive⦄ ⦃a : OpArchive⦄ where
    -- What the archive does with the state of a server that is dumped.
    abbrev pub Restores : KvServer T → Type 0
    Restores u =
        (dump_server u ≢ [])
        × (sa.decode (dump_server u) ≡ some (t.contents u.data_table, u.last_request_id))

    pub load_server_lem :
        (str : Bytes) (kvs : List (Bytes × Bytes)) (reqs : List (Bytes × ℕ)) (s : KvServer T)
        → str ≢ []
        → sa.decode str ≡ some (kvs, reqs)
        → load_server str s
          ≡ done (record s {
            data_table = insert_all t.insert kvs s.data_table;
            last_request_id = reqs;
          })
    unfolding load_server
    load_server_lem [] kvs reqs s ne e = absurd (ne refl)
    load_server_lem (b ∷ bs) kvs reqs s ne e = ground (arith, e)

    -- A server that takes over another's snapshot gets the other's records by client, but of its
    -- table only the keys that it does not have: where it has a value, that value stays, whatever
    -- the snapshot says. So a server whose table is empty becomes a copy of the other.
    pub install_lem :
        (args : InstallSnapshotArgs) (u s : KvServer T)
        → Restores u
        → args.content ≡ dump_server u
        → (v : KvServer T) × (pop_message (snapshot_message args) s ≡ done v)
          × ((k : Bytes)
              → t.find k v.data_table ≡ or_else (t.find k s.data_table) (t.find k u.data_table))
          × (v.last_request_id ≡ u.last_request_id)
          × (v.last_snapshot_command_index ≡ args.last_index)
    unfolding pop_message install snapshot_message
    install_lem args u s (full, r) e =
        let loaded =
          load_server_lem args.content (t.contents u.data_table) u.last_request_id s
            (λ h. full (sym e ∙ h)) (ap sa.decode e ∙ r) in
        (
          record s {
            data_table = insert_all t.insert (t.contents u.data_table) s.data_table;
            last_request_id = u.last_request_id;
            last_snapshot_command_index = args.last_index;
          },
          rw loaded refl,
          λ k.
              find-insert_all k (t.contents u.data_table) s.data_table
              ∙ ap (or_else (t.find k s.data_table)) (sym (laws.find-contents k u.data_table)),
          refl,
          refl,
        )
