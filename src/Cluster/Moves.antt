-- ===== src/Cluster/Moves.antt =====
-- A node or an election of a cluster changes, and the invariant stays.
use native.Mathlib.Decide.{ℕ_discrete}
use raft_kvstorage.Common.{
  ℕ, suc, ◌/◌, ◌≤◌, ◌<◌, ◌≡◌, ◌≢◌, refl, subst, Bool, true, false, ◌||◌, Option, some, arith, ◌==◌,
}
use raft_kvstorage.Raft.Message.{RequestVoteReply}
use raft_kvstorage.Raft.Node.{Node, leader}
use raft_kvstorage.Raft.History.Promise.{Keeps}
use raft_kvstorage.Cluster.{
  Thread, answered, ended, Election, System, update, note, set_node, set_election,
}
use raft_kvstorage.Cluster.Count.{count, count_mono, count_more}
use raft_kvstorage.Cluster.Invariant.{
  Inv, ElectionInv, votes_for, ElectionInv-mono, votes_for_mono, note-Extends, is_counted,
}

-- The node of a step: it keeps its promises, its number and the size of the cluster, and if it is
-- a leader then it has a majority on record.
pub record Sound (n i : ℕ) (s : Node) (sys : System) : Type 0 where
  pub keeps : Keeps (sys.node i) s
  pub me : s.me ≡ (sys.node i).me
  pub helpers : s.helpers ≡ (sys.node i).helpers
  pub elected : s.identity ≡ leader → n / 2 < votes_for n (note i s sys.vote) s.term i

pub update_here {ℓ} : {A : Type ℓ} (f : ℕ → A) (i : ℕ) (a : A) (j : ℕ) → i ≡ j → update f i a j ≡ a
update_here f i a j e = ground arith

update_there {ℓ} : {A : Type ℓ} (f : ℕ → A) (i : ℕ) (a : A) (j : ℕ) → i ≢ j → update f i a j ≡ f j
update_there f i a j ne = ground arith

pub update_elim {ℓ ℓ'} :
    {A : Type ℓ} (P : A → Type ℓ') (f : ℕ → A) (i : ℕ) (a : A) (j : ℕ)
    → (i ≡ j → P a)
    → (i ≢ j → P (f j))
    → P (update f i a j)
update_elim P f i a j here there = elim (ℕ_discrete i j) [
  | yes e ↦ rw (update_here f i a j e) (here e)
  | no ne ↦ rw (update_there f i a j ne) (there ne)
]

pub set_node-Inv :
    (n i : ℕ) (s : Node) (sys : System) → Inv n sys → Sound n i s sys → Inv n (set_node i s sys)
set_node-Inv n i s sys inv k =
    let x = note-Extends n i s sys inv k.keeps in
    record {
      named = λ j. ground (arith, inv.named i, inv.named j, k.me);
      sized = λ j. ground (arith, inv.sized i, inv.sized j, k.helpers);
      current = λ j. ground (arith, inv.current j);
      future = λ j t lt. ground (arith, inv.future j t, k.keeps);
      elections = λ id lt. ElectionInv-mono n _ _ _ x (inv.elections id lt);
      leaders = λ j.
          update_elim (λ u. u.identity ≡ leader → n / 2 < votes_for n (note i s sys.vote) u.term j)
            sys.node i s j
            (λ e l. subst (λ v. n / 2 < votes_for n (note i s sys.vote) s.term v) e (k.elected l))
            (λ ne l. omega (arith, inv.leaders j l, votes_for_mono n _ _ (sys.node j).term j x));
    }

pub set_election-Inv :
    (n id : ℕ) (e : Election) (sys : System)
    → Inv n sys
    → ElectionInv n sys.vote e
    → Inv n (set_election id e sys)
set_election-Inv n id e sys inv v = record {
  named = inv.named;
  sized = inv.sized;
  current = inv.current;
  future = inv.future;
  elections = λ k lt.
      update_elim (ElectionInv n sys.vote) sys.election id e k (λ same. v)
        (λ other. inv.elections k lt);
  leaders = inv.leaders;
}

pub thread-ElectionInv :
    (n j m : ℕ) (th : Thread) (vote : ℕ → ℕ → Option ℕ) (e : Election)
    → ElectionInv n vote e
    → j ≢ e.args.candidate_id
    → ((r : RequestVoteReply)
        → th ≡ answered r
        → r.vote_granted ≡ true
        → (r.term ≡ e.args.term) × (vote j e.args.term ≡ some e.args.candidate_id))
    → (th ≡ ended true → vote j e.args.term ≡ some e.args.candidate_id)
    → m ≤ count n (λ v. e.args.candidate_id == v || is_counted (update e.thread j th v))
    → ElectionInv n vote (record e { vote_num = m; thread = update e.thread j th })
thread-ElectionInv n j m th vote e v ne a c tally = record {
  self = rw (update_there e.thread j th e.args.candidate_id ne) v.self;
  own = v.own;
  answers = λ k r.
      update_elim
        (λ u.
          u ≡ answered r
          → r.vote_granted ≡ true
          → (r.term ≡ e.args.term) × (vote k e.args.term ≡ some e.args.candidate_id))
        e.thread j th k
        (λ same.
          subst
            (λ x.
              th ≡ answered r
              → r.vote_granted ≡ true
              → (r.term ≡ e.args.term) × (vote x e.args.term ≡ some e.args.candidate_id))
            same (a r))
        (λ other. v.answers k r);
  counted = λ k.
      update_elim (λ u. u ≡ ended true → vote k e.args.term ≡ some e.args.candidate_id) e.thread j
        th k
        (λ same.
          subst (λ x. th ≡ ended true → vote x e.args.term ≡ some e.args.candidate_id) same c)
        (λ other. v.counted k);
  tally = tally;
}

or_kept : (a b d : Bool) → b ≡ false → (a || b) ≡ true → (a || d) ≡ true
or_kept true b d f h = refl
or_kept false b d f h = cc

or_right : (a : Bool) → (a || true) ≡ true
or_right true = refl
or_right false = refl

pub kept_tally :
    (n j : ℕ) (th : Thread) (vote : ℕ → ℕ → Option ℕ) (e : Election)
    → ElectionInv n vote e
    → is_counted (e.thread j) ≡ false
    → e.vote_num ≤ count n (λ v. e.args.candidate_id == v || is_counted (update e.thread j th v))
kept_tally n j th vote e v free =
    let le =
      count_mono n (λ u. e.args.candidate_id == u || is_counted (e.thread u))
        (λ u. e.args.candidate_id == u || is_counted (update e.thread j th u))
        (λ u h.
          update_elim (λ x. (e.args.candidate_id == u || is_counted x) ≡ true) e.thread j th u
            (λ same.
              or_kept (e.args.candidate_id == u) _ (is_counted th)
                (subst (λ x. is_counted (e.thread x) ≡ false) same free) h)
            (λ other. h)) in
    omega (arith, v.tally, le)

pub more_tally :
    (n j : ℕ) (vote : ℕ → ℕ → Option ℕ) (e : Election)
    → ElectionInv n vote e
    → j < n
    → j ≢ e.args.candidate_id
    → is_counted (e.thread j) ≡ false
    → suc e.vote_num
      ≤ count n (λ v. e.args.candidate_id == v || is_counted (update e.thread j (ended true) v))
more_tally n j vote e v lt ne free =
    let le =
      count_more n (λ u. e.args.candidate_id == u || is_counted (e.thread u))
        (λ u. e.args.candidate_id == u || is_counted (update e.thread j (ended true) u)) j lt
        (ground (arith, free))
        (rw (update_here e.thread j (ended true) j refl) (or_right (e.args.candidate_id == j)))
        (λ u h.
          update_elim (λ x. (e.args.candidate_id == u || is_counted x) ≡ true) e.thread j
            (ended true) u (λ same. or_right (e.args.candidate_id == u)) (λ other. h)) in
    omega (arith, v.tally, le)
