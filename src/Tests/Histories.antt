-- ===== src/Tests/Histories.antt =====
-- Histories of one node.
use raft_kvstorage.Common.{refl, List, [], ◌∷◌, arith}
use raft_kvstorage.Raft.Node.{dump}
use raft_kvstorage.Raft.Log.{IsWf}
use raft_kvstorage.Raft.History.{Call, run, stands, appends, applies, persists, votes}
use raft_kvstorage.Raft.History.WellFormed.{run-IsWf}
use raft_kvstorage.Raft.History.Durable.{IsDurable, run-IsDurable}
use raft_kvstorage.Tests.Inputs.{codec, follower_node, append_of, no_reply, entry, vote_of}

abbrev history : List Call
history =
    appends 1 (append_of 1 (entry 6 2 ∷ entry 7 2 ∷ entry 8 2 ∷ [])) no_reply
    ∷ applies
    ∷ persists 6 (9 ∷ [])
    ∷ votes 2 (vote_of 2)
    ∷ stands 3
    ∷ []

run-IsWf_example : IsWf (run ⦃c = codec⦄ history follower_node)
run-IsWf_example =
    run-IsWf ⦃c = codec⦄ history follower_node
      ((refl, (refl, (refl, tt))), (tt, (tt, (tt, (tt, tt))))) (omega arith)

run-IsDurable_example : IsDurable ⦃c = codec⦄ (run ⦃c = codec⦄ history follower_node)
unfolding dump
run-IsDurable_example =
    run-IsDurable ⦃c = codec⦄ history follower_node (record { opens = refl; saved = refl })
