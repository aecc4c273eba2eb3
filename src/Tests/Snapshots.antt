-- ===== src/Tests/Snapshots.antt =====
-- Snapshots, delivery and restarts at concrete nodes.
use raft_kvstorage.Common.{ℕ, ◌+◌, ◌<◌, ◌≡◌, refl, true, List, [], ◌∷◌, some, length, arith}
use raft_kvstorage.Persister.{init_persister}
use raft_kvstorage.Raft.Node.{done, log_at}
use raft_kvstorage.Raft.Log.{IsWf}
use raft_kvstorage.Raft.Snapshot.{persist, install_snapshot}
use raft_kvstorage.Raft.Snapshot.View.{Compacts, persist-Compacts, install_snapshot_lem}
use raft_kvstorage.Raft.Apply.{ApplyMessage, get_apply_messages, construct, blank}
use raft_kvstorage.Raft.Apply.Deliver.{Delivers, get_apply_messages-Delivers}
use raft_kvstorage.Raft.Apply.Restart.{construct-init_persister}
use raft_kvstorage.Tests.Inputs.{codec, disk, follower_node, snapshot_of}

follower_node-IsWf : IsWf follower_node
follower_node-IsWf = omega arith

persist-Compacts_example :
    let t = (persist ⦃c = codec⦄ 5 (9 ∷ []) follower_node).0 in
    ((persist ⦃c = codec⦄ 5 (9 ∷ []) follower_node).1 ≡ done true)
    × Compacts 5 follower_node t
    × (follower_node.disk.opens ≡ true → t.disk.snapshot_file ≡ 9 ∷ [])
persist-Compacts_example =
    persist-Compacts ⦃c = codec⦄ 5 (9 ∷ []) follower_node follower_node-IsWf (omega arith)
      (omega arith)

install_snapshot_lem_example :
    let t =
      (install_snapshot ⦃c = codec⦄ 1 (snapshot_of 6) (record { term = 0 }) follower_node).0 in
    (t.last_snapshot_index ≡ 6)
    × (t.last_snapshot_term ≡ 2)
    × (t.term ≡ 2)
    × ((j : ℕ) → 6 < j → log_at t j ≡ log_at follower_node j)
    × ((install_snapshot ⦃c = codec⦄ 1 (snapshot_of 6) (record { term = 0 }) follower_node).2
        ≡ some (snapshot_of 6))
install_snapshot_lem_example =
    install_snapshot_lem ⦃c = codec⦄ 1 (snapshot_of 6) (record { term = 0 }) follower_node
      (refl, (refl, (refl, tt))) (omega arith) (omega arith)

get_apply_messages-Delivers_example :
    (ms : List ApplyMessage) × (get_apply_messages follower_node
      ≡ (record follower_node { applied_index = 6 }, done ms))
    × (5 + length ms ≡ 6)
    × Delivers follower_node 6 ms
get_apply_messages-Delivers_example = get_apply_messages-Delivers follower_node follower_node-IsWf

construct-init_persister_example :
    construct ⦃c = codec⦄ 0 3 1 (init_persister (disk (2 ∷ [])))
    ≡ done (blank 0 3 1 (init_persister (disk (2 ∷ []))))
construct-init_persister_example = construct-init_persister ⦃c = codec⦄ 0 3 1 (disk (2 ∷ []))
