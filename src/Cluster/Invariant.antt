-- ===== src/Cluster/Invariant.antt =====
-- What holds of a cluster at all times.
use raft_kvstorage.Common.{
  ℕ, ap, subst, ◌/◌, ◌≤◌, ◌<◌, ◌≡◌, refl, ◌⊎◌, inl, inr, Bool, true, false, ◌||◌, Option, none,
  some, arith, ◌==◌,
}
use raft_kvstorage.Raft.Message.{RequestVoteReply}
use raft_kvstorage.Raft.Node.{Node, leader}
use raft_kvstorage.Raft.History.Promise.{Keeps}
use raft_kvstorage.Cluster.{Thread, waiting, answered, ended, Election, System, note}
use raft_kvstorage.Cluster.Count.{count, count_mono}

abbrev pub is_for : ℕ → Option ℕ → Bool
is_for c none = false
is_for c (some v) = c == v

abbrev pub is_counted : Thread → Bool
is_counted (ended b) = b
is_counted _ = false

-- The votes that candidate `c` has in term `t`.
abbrev pub votes_for : ℕ → (ℕ → ℕ → Option ℕ) → ℕ → ℕ → ℕ
votes_for n vote t c = count n (λ v. is_for c (vote v t))

pub record ElectionInv (n : ℕ) (vote : ℕ → ℕ → Option ℕ) (e : Election) : Type 0 where
  pub self : e.thread e.args.candidate_id ≡ ended false
  pub own : vote e.args.candidate_id e.args.term ≡ some e.args.candidate_id
  pub answers :
      (j : ℕ) (r : RequestVoteReply)
      → e.thread j ≡ answered r
      → r.vote_granted ≡ true
      → (r.term ≡ e.args.term) × (vote j e.args.term ≡ some e.args.candidate_id)
  pub counted : (j : ℕ) → e.thread j ≡ ended true → vote j e.args.term ≡ some e.args.candidate_id
  pub tally : e.vote_num ≤ count n (λ v. e.args.candidate_id == v || is_counted (e.thread v))

pub record Inv (n : ℕ) (sys : System) : Type 0 where
  pub named : (i : ℕ) → (sys.node i).me ≡ i
  pub sized : (i : ℕ) → (sys.node i).helpers ≡ n
  pub current : (i : ℕ) → sys.vote i (sys.node i).term ≡ (sys.node i).vote4
  pub future : (i t : ℕ) → (sys.node i).term < t → sys.vote i t ≡ none
  pub elections : (id : ℕ) → id < sys.started → ElectionInv n sys.vote (sys.election id)
  pub leaders :
      (i : ℕ) → (sys.node i).identity ≡ leader → n / 2 < votes_for n sys.vote (sys.node i).term i

-- No vote on record is lost.
abbrev pub Extends : (ℕ → ℕ → Option ℕ) → (ℕ → ℕ → Option ℕ) → Type 0
Extends vote vote' = (v t c : ℕ) → vote v t ≡ some c → vote' v t ≡ some c

is_for-some : (c : ℕ) (o : Option ℕ) → is_for c o ≡ true → o ≡ some c
is_for-some c none h = cc
is_for-some c (some v) h = ground arith

is_for_self : (c : ℕ) → is_for c (some c) ≡ true
is_for_self c = ground arith

pub votes_for_mono :
    (n : ℕ) (vote vote' : ℕ → ℕ → Option ℕ) (t c : ℕ)
    → Extends vote vote'
    → votes_for n vote t c ≤ votes_for n vote' t c
votes_for_mono n vote vote' t c x =
    count_mono n _ _ λ v h. rw (x v t c (is_for-some c (vote v t) h)) (is_for_self c)

pub ElectionInv-mono :
    (n : ℕ) (vote vote' : ℕ → ℕ → Option ℕ) (e : Election)
    → Extends vote vote'
    → ElectionInv n vote e
    → ElectionInv n vote' e
ElectionInv-mono n vote vote' e x v = record {
  self = v.self;
  own = x _ _ _ v.own;
  answers = λ j r a g. let (of, for) = v.answers j r a g in (of, x _ _ _ for);
  counted = λ j a. x _ _ _ (v.counted j a);
  tally = v.tally;
}

counted-ended : (th : Thread) → is_counted th ≡ true → th ≡ ended true
counted-ended waiting h = cc
counted-ended (answered r) h = cc
counted-ended (ended b) h = ap ended h

pub orb-true : (a b : Bool) → (a || b) ≡ true → (a ≡ true) ⊎ (b ≡ true)
orb-true true b h = inl refl
orb-true false b h = inr h

same-eq : (i j : ℕ) → (i == j) ≡ true → i ≡ j
same-eq i j h = ground arith

on_record :
    (n : ℕ) (vote : ℕ → ℕ → Option ℕ) (e : Election)
    → ElectionInv n vote e
    → (j : ℕ) → (e.args.candidate_id == j || is_counted (e.thread j)) ≡ true
    → vote j e.args.term ≡ some e.args.candidate_id
on_record n vote e v j h = elim (orb-true _ _ h) [
  | inl same ↦ subst (λ u. vote u e.args.term ≡ some e.args.candidate_id) (same-eq _ _ same) v.own
  | inr done ↦ v.counted j (counted-ended _ done)
]

-- The votes counted are votes on record.
pub tally-le :
    (n : ℕ) (vote : ℕ → ℕ → Option ℕ) (e : Election)
    → ElectionInv n vote e
    → e.vote_num ≤ votes_for n vote e.args.term e.args.candidate_id
tally-le n vote e v =
    let le =
      count_mono n (λ j. e.args.candidate_id == j || is_counted (e.thread j))
        (λ j. is_for e.args.candidate_id (vote j e.args.term))
        (λ j h. rw (on_record n vote e v j h) (is_for_self e.args.candidate_id)) in
    omega (arith, v.tally, le)

-- A node that keeps its promises extends the record.
pub note-Extends :
    (n i : ℕ) (s : Node) (sys : System)
    → Inv n sys
    → Keeps (sys.node i) s
    → Extends sys.vote (note i s sys.vote)
note-Extends n i s sys inv k v t c h = ground (arith, inv.current i, inv.future i t)
