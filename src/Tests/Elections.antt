-- ===== src/Tests/Elections.antt =====
-- An election among three nodes.
use raft_kvstorage.Common.{ℕ, ◌≡◌, refl, true, none, arith}
use raft_kvstorage.Raft.Message.{RequestVoteReply}
use raft_kvstorage.Raft.Node.{Node, last_log_index, last_log_term, is_leader}
use raft_kvstorage.Raft.Vote.{stand4election, request_vote, send_request_vote}
use raft_kvstorage.Cluster.{
  System, waiting, Reach, here, next, stand, serve, count, after_stand, after_serve, after_count,
}
use raft_kvstorage.Cluster.Safety.{IsFresh, one_leader_per_term}
use raft_kvstorage.Tests.Inputs.{codec, follower_node, vote_of}

abbrev member : ℕ → Node
member i = record follower_node { me = i }

abbrev fresh : System
fresh = record {
  node = member;
  vote = λ v t. none;
  started = 0;
  election = λ id. record { args = vote_of 0; vote_num = 0; thread = λ j. waiting };
}

-- Node 0 stands for election, node 1 votes for it, and its answer is counted.
abbrev stood : System
stood = after_stand ⦃c = codec⦄ 0 (stand4election ⦃c = codec⦄ 1 (member 0)).0 fresh

abbrev answer : Node × RequestVoteReply
answer = request_vote ⦃c = codec⦄ 2 (stood.election 0).args (stood.node 1)

abbrev granted_by : System
granted_by = after_serve ⦃c = codec⦄ 0 1 answer stood

abbrev won : System
won =
    after_count ⦃c = codec⦄ 0 1 answer.1
      (send_request_vote ⦃c = codec⦄ true answer.1 (granted_by.election 0).vote_num
        (granted_by.node 0))
      granted_by

election_run : Reach ⦃c = codec⦄ 3 fresh won
unfolding stand4election is_leader
election_run =
    next granted_by won
      (next stood granted_by (next fresh stood here (stand 0 1 (omega arith) refl))
        (serve 0 1 2 (omega arith) (omega arith) refl))
      (count 0 1 answer.1 (omega arith) (omega arith) refl)

fresh-IsFresh : IsFresh 3 fresh
fresh-IsFresh = record {
  named = λ i. refl;
  sized = λ i. refl;
  followers = λ i. refl;
  current = λ i. refl;
  future = λ i t lt. refl;
  idle = refl;
}

one_leader_per_term_example : ◌≡◌ {A = ℕ} 0 0
unfolding stand4election request_vote send_request_vote last_log_index last_log_term
one_leader_per_term_example =
    one_leader_per_term ⦃c = codec⦄ 3 0 0 fresh won fresh-IsFresh election_run refl refl refl
