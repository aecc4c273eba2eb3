-- ===== src/Raft/Ticker/Heard.antt =====
-- A node that hears from a leader, or gives its vote, does not stand for election.
use raft_kvstorage.Common.{ℕ, ◌<◌, ◌≤◌, ◌≡◌, ◌≢◌, true, arith}
use raft_kvstorage.Raft.Message.{AppendEntriesArgs, AppendEntriesReply, RequestVoteArgs, connected}
use raft_kvstorage.Raft.Node.{
  Node, Codec, Identity, leader, is_leader, identity_change, persist_self,
}
use raft_kvstorage.Raft.Vote.{request_vote}
use raft_kvstorage.Raft.Append.{append_entries, follow}
use raft_kvstorage.Raft.Append.Frame.{receive_entries-same}
use raft_kvstorage.Raft.Ticker.{again, daemon_act}

module _ ⦃c : Codec⦄ where
  heard-reset :
      (now : ℕ) (args : AppendEntriesArgs) (r : AppendEntriesReply) (s : Node)
      → s.term ≤ args.term
      → (append_entries now args r s).0.last_reset_election_time ≡ now
  unfolding append_entries follow identity_change persist_self
  heard-reset now args r s le = ground (
    arith,
    receive_entries-same args (record r { state = connected; term = (follow now args.term s).term })
        (follow now args.term s),
  )

  granted-reset :
      (now : ℕ) (args : RequestVoteArgs) (s : Node)
      → (request_vote now args s).1.vote_granted ≡ true
      → (request_vote now args s).0.last_reset_election_time ≡ now
  unfolding request_vote
  granted-reset now args s g = ground arith

  -- While the thread of the timer sleeps, a vote that the node gives makes it begin again too.
  daemon_act-granted :
      (was : Identity) (slept heard now : ℕ) (asks : RequestVoteArgs) (s : Node)
      → was ≢ leader
      → slept < heard
      → (request_vote heard asks s).1.vote_granted ≡ true
      → let u = (request_vote heard asks s).0 in daemon_act was slept now u ≡ (u, again)
  unfolding daemon_act is_leader
  daemon_act-granted was slept heard now asks s f lt g =
      ground (arith, granted-reset heard asks s g)

  -- A message of a leader that is not behind the node's term, taken later than the thread of the
  -- election timer fell asleep, makes the thread begin again: the node does not stand for election,
  -- and nothing of it changes.
  daemon_act-heard :
      (was : Identity) (slept heard now : ℕ) (args : AppendEntriesArgs) (r : AppendEntriesReply)
      (s : Node)
      → was ≢ leader
      → slept < heard
      → s.term ≤ args.term
      → let t = (append_entries heard args r s).0 in daemon_act was slept now t ≡ (t, again)
  unfolding daemon_act is_leader
  daemon_act-heard was slept heard now args r s f lt le =
      ground (arith, heard-reset heard args r s le)
