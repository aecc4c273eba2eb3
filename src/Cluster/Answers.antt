-- ===== src/Cluster/Answers.antt =====
-- An election and its threads, as answers come in.
use raft_kvstorage.Common.{
  ℕ, suc, ◌+◌, ◌≤◌, ◌<◌, ◌≡◌, ◌≢◌, refl, ap, subst, Bool, true, false, Option, some, arith,
}
use raft_kvstorage.Raft.Message.{RequestVoteReply}
use raft_kvstorage.Raft.Node.{Node}
use raft_kvstorage.Raft.Vote.{vote_args}
use raft_kvstorage.Cluster.{
  Thread, waiting, answered, ended, Election, System, update, note, set_election, new_election,
  counts_vote, is_running,
}
use raft_kvstorage.Cluster.Count.{count_pos}
use raft_kvstorage.Cluster.Invariant.{Inv, ElectionInv, is_counted}
use raft_kvstorage.Cluster.Moves.{update_elim, thread-ElectionInv, kept_tally, more_tally}

-- The thread of a candidate has ended from the start.
pub apart :
    (n j : ℕ) (vote : ℕ → ℕ → Option ℕ) (e : Election)
    → ElectionInv n vote e
    → is_running (e.thread j) ≡ true
    → j ≢ e.args.candidate_id
apart n j vote e v r same =
    let stopped = subst (λ u. is_running (e.thread u) ≡ true) same r in
    ground (arith, rw v.self at stopped)

pub running-free : (th : Thread) → is_running th ≡ true → is_counted th ≡ false
running-free waiting h = refl
running-free (answered r) h = refl
running-free (ended b) h = cc

pub begun :
    (n i : ℕ) (s : Node) (sys : System)
    → i < n
    → s.me ≡ i
    → s.vote4 ≡ some i
    → ElectionInv n (note i s sys.vote) (new_election s)
unfolding vote_args
begun n i s sys lt me v = record {
  self = ground arith;
  own = ground arith;
  answers = λ j r a g. ground arith;
  counted = λ j a. ground arith;
  tally = count_pos n _ i lt (ground arith);
}

-- One more election.
pub start-Inv :
    (n : ℕ) (e : Election) (sys : System)
    → Inv n sys
    → ElectionInv n sys.vote e
    → Inv n (set_election sys.started e (record sys { started = sys.started + 1 }))
start-Inv n e sys inv v = record {
  named = inv.named;
  sized = inv.sized;
  current = inv.current;
  future = inv.future;
  elections = λ k lt.
      update_elim (ElectionInv n sys.vote) sys.election sys.started e k (λ same. v)
        (λ other. inv.elections k (omega (arith, lt, other)));
  leaders = inv.leaders;
}

pub no_count : ended false ≢ ended true
no_count e = ground (arith, ap is_counted e)

-- An answer that goes into the count, or does not.
pub recounted :
    (n j m : ℕ) (b : Bool) (r : RequestVoteReply) (vote : ℕ → ℕ → Option ℕ) (e : Election)
    → ElectionInv n vote e
    → j < n
    → e.thread j ≡ answered r
    → (b ≡ true → r.vote_granted ≡ true)
    → m ≤ suc e.vote_num
    → (b ≡ false → m ≤ e.vote_num)
    → ElectionInv n vote (record e { vote_num = m; thread = update e.thread j (ended b) })
recounted n j m true r vote e v lt a g up stay =
    let ran : is_running (e.thread j) ≡ true = rw a refl in
    let ne = apart n j vote e v ran in
    let more = more_tally n j vote e v lt ne (running-free _ ran) in
    thread-ElectionInv n j m (ended true) vote e v ne (λ r' same. cc)
      (λ same. (v.answers j r a (g refl)).1) (omega (arith, up, more))
recounted n j m false r vote e v lt a g up stay =
    let ran : is_running (e.thread j) ≡ true = rw a refl in
    let ne = apart n j vote e v ran in
    let kept = kept_tally n j (ended false) vote e v (running-free _ ran) in
    thread-ElectionInv n j m (ended false) vote e v ne (λ r' same. cc)
      (λ same. absurd (no_count same)) (omega (arith, stay refl, kept))

pub grants : (r : RequestVoteReply) (s : Node) → counts_vote r s ≡ true → r.vote_granted ≡ true
grants r s h = ground arith
