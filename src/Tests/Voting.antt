-- ===== src/Tests/Voting.antt =====
-- Elections at concrete nodes.
use raft_kvstorage.Common.{ℕ, ◌≡◌, ◌↔◌, refl, true, [], ◌∷◌, map}
use raft_kvstorage.Raft.Message.{RequestVoteArgs}
use raft_kvstorage.Raft.Node.{last_log_index, last_log_term}
use raft_kvstorage.Raft.Vote.{request_vote, stand4election}
use raft_kvstorage.Raft.Vote.Election.{IsUpToDate, IsFree, request_vote_iff}
use raft_kvstorage.Raft.Apply.{get_apply_messages}
use raft_kvstorage.Raft.History.{applies, run}
use raft_kvstorage.Raft.History.Promise.{one_vote_per_term}
use raft_kvstorage.Tests.Inputs.{codec, follower_node, vote_of}

request_vote_iff_example :
    ((request_vote ⦃c = codec⦄ 1 (vote_of 2) follower_node).1.vote_granted ≡ true)
    ↔ (IsUpToDate (vote_of 2) follower_node × IsFree (vote_of 2) follower_node)
request_vote_iff_example = request_vote_iff ⦃c = codec⦄ 1 (vote_of 2) follower_node

one_vote_per_term_example : ◌≡◌ {A = ℕ} 2 2
unfolding request_vote last_log_index last_log_term run get_apply_messages
one_vote_per_term_example =
    one_vote_per_term ⦃c = codec⦄ (vote_of 2) (vote_of 2) 1 5 (applies ∷ []) follower_node refl refl
      refl

-- Node 0 of three asks nodes 1 and 2.
stand4election_asks :
    map (λ (p : ℕ × RequestVoteArgs). p.0) (stand4election ⦃c = codec⦄ 1 follower_node).1
    ≡ 1 ∷ 2 ∷ []
unfolding stand4election
stand4election_asks = refl
