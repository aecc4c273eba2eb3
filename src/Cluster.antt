-- ===== src/Cluster.antt =====
-- Several nodes of src/raft/src/core/raft.cpp and the threads that collect their votes, interleaved
-- in any order. Remote calls may be slow, lost, or answered without the answer arriving.
pub mod Answers
pub mod Calls
pub mod Count
pub mod Invariant
pub mod Moves
pub mod Safety
pub mod Steps
use raft_kvstorage.Common.{
  ℕ, ◌+◌, ◌<◌, ◌≡◌, Bool, true, false, ◌&&◌, Option, none, ◌==◌, if◌then◌else◌,
}
use raft_kvstorage.Raft.Message.{RequestVoteArgs, RequestVoteReply}
use raft_kvstorage.Raft.Node.{Node, Codec, is_leader, leader}
use raft_kvstorage.Raft.Vote.{VoteCount, request_vote, stand4election, send_request_vote, vote_args}
use raft_kvstorage.Raft.History.{Call, votes, stands, vote_answered, step}

abbrev pub update {ℓ} : {A : Type ℓ} → (ℕ → A) → ℕ → A → ℕ → A
update f i a j = if i == j then a else f j

-- A thread of `_L_sendRequestVote`: before the remote call is served, with an answer, or at its end,
-- with a mark that says whether the answer was a vote that went into the count.
pub data Thread : Type 0 where
  waiting : Thread
  answered : RequestVoteReply → Thread
  ended : Bool → Thread

-- An election: the arguments and the counter that its threads share, and the threads by server.
pub record Election : Type 0 where
  pub args : RequestVoteArgs
  pub vote_num : ℕ
  pub thread : ℕ → Thread

-- `vote v t` records for whom node `v` voted in term `t`. The program does not have it: it is what
-- the nodes' own `vote4` have been.
pub record System : Type 0 where
  pub node : ℕ → Node
  pub vote : ℕ → ℕ → Option ℕ
  pub started : ℕ
  pub election : ℕ → Election

abbrev pub note : ℕ → Node → (ℕ → ℕ → Option ℕ) → ℕ → ℕ → Option ℕ
note i s vote v t = if i == v && t == s.term then s.vote4 else vote v t

abbrev pub set_node : ℕ → Node → System → System
set_node i s sys = record sys { node = update sys.node i s; vote = note i s sys.vote }

abbrev pub set_election : ℕ → Election → System → System
set_election id e sys = record sys { election = update sys.election id e }

abbrev pub set_thread : ℕ → Thread → Election → Election
set_thread j th e = record e { thread = update e.thread j th }

-- The election that a candidate starts: `_L_stand4Election` counts its own vote.
abbrev pub new_election : Node → Election
new_election s = record {
  args = vote_args s;
  vote_num = 1;
  thread = λ j. if s.me == j then ended false else waiting;
}

-- The calls of a node that have nothing to do with elections.
abbrev pub Quiet : Call → Type 0
Quiet (votes _ _) = ⊥
Quiet (stands _) = ⊥
Quiet (vote_answered _ _ _) = ⊥
Quiet _ = Unit {0}

-- Whether an answer went into the count.
abbrev pub counts_vote : RequestVoteReply → Node → Bool
counts_vote r s = r.vote_granted && r.term == s.term

abbrev pub is_running : Thread → Bool
is_running (ended b) = false
is_running _ = true

module _ ⦃c : Codec⦄ where
  abbrev pub after_stand : ℕ → Node → System → System
  after_stand i s sys =
      set_election sys.started (new_election s)
        (record (set_node i s sys) { started = sys.started + 1 })

  abbrev pub after_serve : ℕ → ℕ → Node × RequestVoteReply → System → System
  after_serve id j (s, r) sys =
      set_election id (set_thread j (answered r) (sys.election id)) (set_node j s sys)

  abbrev pub after_count : ℕ → ℕ → RequestVoteReply → VoteCount → System → System
  after_count id j r k sys =
      let e = sys.election id in
      set_election id
        (record e {
          vote_num = k.vote_num;
          thread = update e.thread j (ended (counts_vote r (sys.node e.args.candidate_id)));
        })
        (set_node e.args.candidate_id k.node sys)

  -- A step of the cluster: a node stands for election, serves a request for its vote or counts an
  -- answer; a thread of an election ends without an answer; or a node serves any other call, with
  -- any arguments.
  pub data Move (n : ℕ) (sys : System) : System → Type 0 where
    stand :
        (i now : ℕ)
        → i < n
        → is_leader (sys.node i).identity ≡ false
        → Move n sys (after_stand i (stand4election now (sys.node i)).0 sys)
    serve :
        (id j now : ℕ)
        → id < sys.started
        → j < n
        → (sys.election id).thread j ≡ waiting
        → Move n sys (after_serve id j (request_vote now (sys.election id).args (sys.node j)) sys)
    lose :
        (id j : ℕ)
        → id < sys.started
        → is_running ((sys.election id).thread j) ≡ true
        → Move n sys (set_election id (set_thread j (ended false) (sys.election id)) sys)
    count :
        (id j : ℕ) (r : RequestVoteReply)
        → id < sys.started
        → j < n
        → (sys.election id).thread j ≡ answered r
        → Move n sys (
            after_count id j r
              (send_request_vote true r
                (sys.election id).vote_num
                (sys.node (sys.election id).args.candidate_id))
              sys)
    work :
        (i : ℕ) (op : Call) → i < n → Quiet op → Move n sys (set_node i (step op (sys.node i)) sys)

  -- Any number of steps.
  pub data Reach (n : ℕ) (sys : System) : System → Type 0 where
    here : Reach n sys sys
    next : (mid last : System) → Reach n sys mid → Move n mid last → Reach n sys last
