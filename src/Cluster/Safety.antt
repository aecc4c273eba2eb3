-- ===== src/Cluster/Safety.antt =====
-- However the calls of the nodes interleave, a term has one leader at most.
use raft_kvstorage.Common.{ℕ, ◌/◌, ◌<◌, ◌≡◌, ◌≢◌, sym, ◌∙◌, subst, true, Option, none, some, arith}
use native.Mathlib.Decide.{ℕ_discrete}
use raft_kvstorage.Raft.Node.{Codec, leader, follower}
use raft_kvstorage.Cluster.{System, Reach, here, next}
use raft_kvstorage.Cluster.Count.{count_disjoint}
use raft_kvstorage.Cluster.Invariant.{Inv, votes_for, is_for}
use raft_kvstorage.Cluster.Steps.{Move-Inv}

follower_no_leader : follower ≢ leader
follower_no_leader e = cc

one_choice : (i j : ℕ) (o : Option ℕ) → is_for i o ≡ true → is_for j o ≡ true → i ≡ j
one_choice i j none p q = cc
one_choice i j (some v) p q = ground arith

-- A cluster that starts afresh: every node a follower that has its number, no vote on record but
-- the nodes' own, and no election.
pub record IsFresh (n : ℕ) (sys : System) : Type 0 where
  pub named : (i : ℕ) → (sys.node i).me ≡ i
  pub sized : (i : ℕ) → (sys.node i).helpers ≡ n
  pub followers : (i : ℕ) → (sys.node i).identity ≡ follower
  pub current : (i : ℕ) → sys.vote i (sys.node i).term ≡ (sys.node i).vote4
  pub future : (i t : ℕ) → (sys.node i).term < t → sys.vote i t ≡ none
  pub idle : sys.started ≡ 0

IsFresh-Inv : (n : ℕ) (sys : System) → IsFresh n sys → Inv n sys
IsFresh-Inv n sys f = record {
  named = f.named;
  sized = f.sized;
  current = f.current;
  future = f.future;
  elections = λ id lt. absurd (omega (arith, lt, f.idle));
  leaders = λ i l. absurd (follower_no_leader (sym (f.followers i) ∙ l));
}

-- Two candidates do not get more than half of the votes of a term each.
majorities_meet :
    (n t i j : ℕ) (vote : ℕ → ℕ → Option ℕ)
    → n / 2 < votes_for n vote t i
    → n / 2 < votes_for n vote t j
    → i ≡ j
majorities_meet n t i j vote a b = elim (ℕ_discrete i j) [
  | yes e ↦ e
  | no ne ↦
      let most =
        count_disjoint n (λ v. is_for i (vote v t)) (λ v. is_for j (vote v t))
          (λ v p q. ne (one_choice i j (vote v t) p q)) in
      absurd (omega (arith, a, b, most))
]

module _ ⦃c : Codec⦄ where
  Reach-Inv : (n : ℕ) (sys sys' : System) → Inv n sys → Reach n sys sys' → Inv n sys'
  Reach-Inv n sys _ inv here = inv
  Reach-Inv n sys _ inv (next mid last r m) = Move-Inv n mid last (Reach-Inv n sys mid inv r) m

  -- Election safety: however the calls of the nodes of a fresh cluster interleave, none of which
  -- restarts, and whatever remote calls are lost or late, two nodes that are leaders of the same term
  -- are the same node.
  pub one_leader_per_term :
      (n i j : ℕ) (sys sys' : System)
      → IsFresh n sys
      → Reach n sys sys'
      → (sys'.node i).identity ≡ leader
      → (sys'.node j).identity ≡ leader
      → (sys'.node i).term ≡ (sys'.node j).term
      → i ≡ j
  one_leader_per_term n i j sys sys' fresh r li lj e =
      let inv = Reach-Inv n sys sys' (IsFresh-Inv n sys fresh) r in
      majorities_meet n (sys'.node i).term i j sys'.vote (inv.leaders i li)
        (subst (λ t. n / 2 < votes_for n sys'.vote t j) (sym e) (inv.leaders j lj))
