-- ===== src/Raft/History/Promise.antt =====
-- Terms only grow, and a vote given in a term stands while the term lasts.
use raft_kvstorage.Common.{
  ℕ, ◌<◌, ◌≡◌, refl, ◌⊎◌, inr, Bool, true, List, [], ◌∷◌, none, some, arith,
}
use raft_kvstorage.Raft.Message.{
  AppendEntriesArgs, AppendEntriesReply, RequestVoteArgs, RequestVoteReply, InstallSnapshotArgs,
  InstallSnapshotReply, connected,
}
use raft_kvstorage.Raft.Node.{Node, Codec, identity_change, persist_self}
use raft_kvstorage.Raft.Vote.{request_vote, stand4election, send_request_vote}
use raft_kvstorage.Raft.Append.{append_entries, follow}
use raft_kvstorage.Raft.Append.Frame.{receive_entries-same}
use raft_kvstorage.Raft.Leader.{execute, heart_beat, send_append_entries}
use raft_kvstorage.Raft.Snapshot.{
  persist, install_snapshot, send_snapshot, cut_log, persist_with, adopt_snapshot,
}
use raft_kvstorage.Raft.Apply.{get_apply_messages}
use raft_kvstorage.Raft.History.{
  Call, step, run, votes, stands, vote_answered, appends, executes, beats, append_answered,
  persists, installs, snapshot_answered, applies,
}

-- `t` comes after `s`: a later term, or the same term with the vote of `s`, if `s` had one.
abbrev pub Keeps : Node → Node → Type 0
Keeps s t = (s.term < t.term) ⊎ ((s.term ≡ t.term) × ((s.vote4 ≡ none) ⊎ (t.vote4 ≡ s.vote4)))

Keeps-trans : (s t u : Node) → Keeps s t → Keeps t u → Keeps s u
Keeps-trans s t u p q = ground arith

module _ ⦃c : Codec⦄ where
  pub request_vote-Keeps :
      (now : ℕ) (args : RequestVoteArgs) (s : Node) → Keeps s (request_vote now args s).0
  unfolding request_vote
  request_vote-Keeps now args s = ground arith

  pub stand4election-Keeps : (now : ℕ) (s : Node) → Keeps s (stand4election now s).0
  unfolding stand4election
  stand4election-Keeps now s = ground arith

  pub send_request_vote-Keeps :
      (b : Bool) (r : RequestVoteReply) (n : ℕ) (s : Node)
      → Keeps s (send_request_vote b r n s).node
  unfolding send_request_vote
  send_request_vote-Keeps b r n s = ground arith

  append_entries-Keeps :
      (now : ℕ) (args : AppendEntriesArgs) (r : AppendEntriesReply) (s : Node)
      → Keeps s (append_entries now args r s).0
  unfolding append_entries follow identity_change persist_self
  append_entries-Keeps now args r s = ground (
    arith,
    receive_entries-same args (record r { state = connected; term = (follow now args.term s).term })
        (follow now args.term s),
  )

  send_append_entries-Keeps :
      (now server : ℕ) (args : AppendEntriesArgs) (sent : Bool) (reply : AppendEntriesReply)
      (append_num : ℕ) (s : Node)
      → Keeps s (send_append_entries now server args sent reply append_num s).node
  unfolding send_append_entries
  send_append_entries-Keeps now server args sent reply append_num s = ground arith

  install_snapshot-Keeps :
      (now : ℕ) (args : InstallSnapshotArgs) (reply : InstallSnapshotReply) (s : Node)
      → Keeps s (install_snapshot now args reply s).0
  unfolding install_snapshot follow adopt_snapshot persist_with identity_change
  install_snapshot-Keeps now args reply s = ground arith

  send_snapshot-Keeps :
      (now server : ℕ) (args : InstallSnapshotArgs) (sent : Bool) (reply : InstallSnapshotReply)
      (s : Node)
      → Keeps s (send_snapshot now server args sent reply s)
  unfolding send_snapshot
  send_snapshot-Keeps now server args sent reply s = ground arith

  pub step-Keeps : (op : Call) (s : Node) → Keeps s (step op s)
  unfolding step execute heart_beat persist cut_log persist_with get_apply_messages
  step-Keeps (votes now args) s = request_vote-Keeps now args s
  step-Keeps (stands now) s = stand4election-Keeps now s
  step-Keeps (vote_answered sent reply vote_num) s = send_request_vote-Keeps sent reply vote_num s
  step-Keeps (appends now args reply) s = append_entries-Keeps now args reply s
  step-Keeps (executes command) s = ground arith
  step-Keeps (beats now) s = ground arith
  step-Keeps (append_answered now server args sent reply append_num) s =
      send_append_entries-Keeps now server args sent reply append_num s
  step-Keeps (persists index shot) s = ground arith
  step-Keeps (installs now args reply) s = install_snapshot-Keeps now args reply s
  step-Keeps (snapshot_answered now server args sent reply) s =
      send_snapshot-Keeps now server args sent reply s
  step-Keeps applies s = ground arith

  -- Whatever calls a node serves, its term never falls, and as long as the term stays the same a
  -- vote that was given is neither withdrawn nor changed.
  run-Keeps : (ops : List Call) (s : Node) → Keeps s (run ops s)
  unfolding run
  run-Keeps [] s = inr (refl, inr refl)
  run-Keeps (op ∷ ops) s =
      Keeps-trans s (step op s) (run ops (step op s)) (step-Keeps op s) (run-Keeps ops (step op s))

  pub granted-vote4 :
      (now : ℕ) (args : RequestVoteArgs) (s : Node)
      → (request_vote now args s).1.vote_granted ≡ true
      → ((request_vote now args s).0.term ≡ args.term)
        × ((request_vote now args s).0.vote4 ≡ some args.candidate_id)
  unfolding request_vote
  granted-vote4 now args s h = ground arith

  granted-free :
      (now : ℕ) (args : RequestVoteArgs) (s : Node)
      → (request_vote now args s).1.vote_granted ≡ true
      → (s.term < args.term)
        ⊎ ((s.term ≡ args.term) × ((s.vote4 ≡ none) ⊎ (s.vote4 ≡ some args.candidate_id)))
  unfolding request_vote
  granted-free now args s h = ground arith

  -- A node votes for one candidate a term: if it grants a vote, then serves any calls, and then
  -- grants a vote of the same term, both votes are for the same candidate.
  pub one_vote_per_term :
      (first second : RequestVoteArgs) (earlier later : ℕ) (ops : List Call) (s : Node)
      → (request_vote earlier first s).1.vote_granted ≡ true
      → (request_vote later second (run ops (request_vote earlier first s).0)).1.vote_granted ≡ true
      → first.term ≡ second.term
      → first.candidate_id ≡ second.candidate_id
  one_vote_per_term first second earlier later ops s granted again e =
      let voter = (request_vote earlier first s).0 in
      ground (
        arith,
        granted-vote4 earlier first s granted,
        run-Keeps ops voter,
        granted-free later second (run ops voter) again,
      )
