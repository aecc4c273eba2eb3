-- ===== src/Raft/Vote.antt =====
-- raft::_L_requestVote, _L_stand4Election and _L_sendRequestVote of src/raft/src/core/raft.cpp.
-- `now` is the reading of the clock that a method takes.
pub mod Election
use raft_kvstorage.Common.{
  ℕ, zero, suc, ◌+◌, ◌/◌, Bool, true, false, not, ◌||◌, List, [], ◌∷◌, map, Option, none, some,
  replicate, set, ltb, leb, ◌==◌, if◌then◌else◌,
}
use raft_kvstorage.Raft.Message.{RequestVoteArgs, RequestVoteReply, expire, voted, normal}
use raft_kvstorage.Raft.Node.{
  Node, Codec, follower, candidate, leader, is_leader, last_log_index, last_log_term, receive_vote,
  persist_self, identity_change,
}

-- `-1 != _M_vote4 && args->candidate_id() != _M_vote4`.
unfoldable pub voted_other : Option ℕ → ℕ → Bool
voted_other none candidate_id = false
voted_other (some v) candidate_id = not (candidate_id == v)

-- The numbers from `i` on, `n` of them, without `me`: the nodes that a loop over the helpers calls.
unfoldable pub peers_from : ℕ → ℕ → ℕ → List ℕ
peers_from me i zero = []
peers_from me i (suc n) = let rest = peers_from me (suc i) n in if i == me then rest else i ∷ rest

unfoldable pub peers : Node → List ℕ
unfolding peers_from
peers s = peers_from s.me 0 s.helpers

-- More than half: `(_M_helpers.size() >> 1) + 1`.
unfoldable pub majority : Node → ℕ
majority s = s.helpers / 2 + 1

unfoldable pub vote_args : Node → RequestVoteArgs
vote_args s = record {
  term = s.term;
  candidate_id = s.me;
  last_log_index = last_log_index s;
  last_log_term = last_log_term s;
}

-- What `_L_sendRequestVote` leaves: the node, the counter that the threads of one election share,
-- its result, and whether it starts a heartbeat.
pub record VoteCount : Type 0 where
  pub node : Node
  pub vote_num : ℕ
  pub result : Bool
  pub heart_beat : Bool

module _ ⦃c : Codec⦄ where
  -- `_L_requestVote` from the test of the log on, the deferred `_M_persist` included.
  unfoldable pub answer_vote : ℕ → RequestVoteArgs → Node → Node × RequestVoteReply
  unfolding receive_vote voted_other persist_self
  answer_vote now args s =
      if not (receive_vote s args.last_log_index args.last_log_term)
      then (persist_self s, record { term = s.term; vote_granted = false; state = voted })
      else if voted_other s.vote4 args.candidate_id
      then (persist_self s, record { term = s.term; vote_granted = false; state = voted })
      else (
        persist_self (record s { vote4 = some args.candidate_id; last_reset_election_time = now }),
        record { term = s.term; vote_granted = true; state = normal },
      )

  unfoldable pub request_vote : ℕ → RequestVoteArgs → Node → Node × RequestVoteReply
  unfolding answer_vote identity_change persist_self
  request_vote now args s =
      if ltb args.term s.term
      then (persist_self s, record { term = s.term; vote_granted = false; state = expire })
      else answer_vote now args
          (if ltb s.term args.term then identity_change follower args.term none s else s)

  -- The new state, and a request for each other node.
  unfoldable pub stand4election : ℕ → Node → Node × List (ℕ × RequestVoteArgs)
  unfolding is_leader identity_change peers vote_args
  stand4election now s =
      if is_leader s.identity
      then (s, [])
      else let t = record (identity_change candidate (s.term + 1) (some s.me) s) {
        last_reset_election_time = now;
      } in
        (t, map (λ i. (i, vote_args t)) (peers t))

  -- The state of a node that has just won: what it knows of the others starts afresh.
  unfoldable pub become_leader : Node → Node
  unfolding last_log_index persist_self
  become_leader s = persist_self (record s {
    identity = leader;
    next_index = replicate s.helpers (last_log_index s + 1);
    match_index = set (replicate s.helpers 0) s.me (last_log_index s);
  })

  -- `_L_sendRequestVote` once one more vote is counted.
  unfoldable pub count_vote : ℕ → Node → VoteCount
  unfolding majority is_leader become_leader
  count_vote votes s =
      if leb (majority s) votes
      then (if is_leader s.identity
          then record { node = s; vote_num = 0; result = true; heart_beat = false }
          else record { node = become_leader s; vote_num = 0; result = true; heart_beat = true })
      else record { node = s; vote_num = votes; result = true; heart_beat = false }

  -- `_L_sendRequestVote`: `sent` is the result of the remote call, `reply` its answer.
  unfoldable pub send_request_vote : Bool → RequestVoteReply → ℕ → Node → VoteCount
  unfolding identity_change count_vote
  send_request_vote sent reply vote_num s =
      if not sent
      then record { node = s; vote_num = vote_num; result = false; heart_beat = false }
      else if ltb s.term reply.term
      then record {
        node = identity_change follower reply.term none s;
        vote_num = vote_num;
        result = true;
        heart_beat = false;
      }
      else if ltb reply.term s.term || not reply.vote_granted
      then record { node = s; vote_num = vote_num; result = true; heart_beat = false }
      else count_vote (vote_num + 1) s
