-- ===== src/Tests/Waiting.antt =====
-- The timer threads at a concrete node.
use raft_kvstorage.Common.{◌≡◌, refl}
use raft_kvstorage.Raft.Ticker.{daemon_sleep}
use raft_kvstorage.Tests.Inputs.{follower_node, leader_node}

leader_sleeps : daemon_sleep 400 100 leader_node ≡ 150
unfolding daemon_sleep
leader_sleeps = refl

follower_sleeps : daemon_sleep 400 100 follower_node ≡ 300
unfolding daemon_sleep
follower_sleeps = refl
