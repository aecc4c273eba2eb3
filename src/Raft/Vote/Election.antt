-- ===== src/Raft/Vote/Election.antt =====
-- To whom _L_requestVote gives a vote, and what _L_stand4Election and _L_sendRequestVote do.
use raft_kvstorage.Common.{ℕ, ◌+◌, ◌<◌, ◌≤◌, ◌≡◌, ◌≢◌, ◌↔◌, ◌⊎◌, true, none, some, arith, ◌/◌, map}
use raft_kvstorage.Raft.Message.{RequestVoteArgs, RequestVoteReply}
use raft_kvstorage.Raft.Node.{
  Node, Codec, last_log_index, last_log_term, leader, candidate, persist_self, is_leader,
}
use raft_kvstorage.Raft.Vote.{peers, request_vote, stand4election, send_request_vote, vote_args}

-- The candidate's log is at least as new as the node's: a later last term, or the same last term
-- and no smaller last index.
abbrev pub IsUpToDate : RequestVoteArgs → Node → Type 0
IsUpToDate args s =
    (last_log_term s < args.last_log_term)
    ⊎ ((args.last_log_term ≡ last_log_term s) × (last_log_index s ≤ args.last_log_index))

-- The node has not given its vote of the candidate's term to another.
abbrev pub IsFree : RequestVoteArgs → Node → Type 0
IsFree args s =
    (s.term < args.term)
    ⊎ ((s.term ≡ args.term) × ((s.vote4 ≡ none) ⊎ (s.vote4 ≡ some args.candidate_id)))

module _ ⦃c : Codec⦄ where
  -- A vote is granted exactly when the candidate's log is at least as new as the node's and the
  -- node has not voted for another in the candidate's term, which is not behind the node's.
  pub request_vote_iff :
      (now : ℕ) (args : RequestVoteArgs) (s : Node)
      → ((request_vote now args s).1.vote_granted ≡ true) ↔ (IsUpToDate args s × IsFree args s)
  unfolding request_vote last_log_index last_log_term
  request_vote_iff now args s = (λ h. ground arith, λ h. ground arith)

  -- Standing for election, a node that is no leader moves to the next term as a candidate that has
  -- voted for itself, has that on its disk, and asks each other node for its vote in that term.
  pub stand4election_lem :
      (now : ℕ) (s : Node)
      → s.identity ≢ leader
      → let t = (stand4election now s).0 in
        (t.term ≡ s.term + 1)
        × (t.vote4 ≡ some s.me)
        × (t.identity ≡ candidate)
        × (t.disk ≡ (persist_self t).disk)
        × ((stand4election now s).1 ≡ map (λ i. (i, vote_args t)) (peers t))
  unfolding stand4election persist_self is_leader
  stand4election_lem now s h = ground arith

  -- One more counted vote makes the node a leader exactly when it was one, or the answer is a grant
  -- of the node's own term and the votes reach a majority; its term and vote stay, then.
  send_request_vote-leader :
      (reply : RequestVoteReply) (vote_num : ℕ) (s : Node)
      → let t = (send_request_vote true reply vote_num s).node in
        reply.term ≤ s.term
        → (t.identity ≡ leader) ↔ (
            (s.identity ≡ leader)
            ⊎ ((reply.term ≡ s.term)
                × (reply.vote_granted ≡ true)
                × (s.helpers / 2 < vote_num + 1)))
  unfolding send_request_vote
  send_request_vote-leader reply vote_num s h = (λ e. ground arith, λ e. ground arith)
