-- ===== src/Cluster/Steps.antt =====
-- Every step of a cluster keeps its invariant.
use raft_kvstorage.Common.{
  ℕ, suc, ◌/◌, ◌<◌, ◌≡◌, ◌≢◌, refl, ap, sym, ◌∙◌, subst, inl, inr, true, false, Option, some, arith,
}
use raft_kvstorage.Raft.Message.{RequestVoteArgs, RequestVoteReply}
use raft_kvstorage.Raft.Node.{Node, Codec, Identity, leader, candidate, is_leader}
use raft_kvstorage.Raft.Vote.{request_vote, stand4election, send_request_vote}
use raft_kvstorage.Raft.Vote.Election.{stand4election_lem}
use raft_kvstorage.Raft.History.{step}
use raft_kvstorage.Raft.History.Promise.{
  Keeps, request_vote-Keeps, stand4election-Keeps, send_request_vote-Keeps, step-Keeps,
  granted-vote4,
}
use raft_kvstorage.Cluster.{
  Thread, waiting, answered, ended, Election, System, Move, stand, serve, lose, count, work, update,
  note, set_node, set_thread, new_election, after_stand, after_serve, after_count, counts_vote,
  is_running,
}
use raft_kvstorage.Cluster.Calls.{
  Follows, request_vote-Follows, granted-term, step-Follows, stand4election-me,
  send_request_vote-me, send_request_vote-count, send_request_vote-rules,
}
use raft_kvstorage.Cluster.Invariant.{
  Inv, ElectionInv, votes_for, Extends, ElectionInv-mono, votes_for_mono, note-Extends, tally-le,
}
use raft_kvstorage.Cluster.Moves.{
  Sound, set_node-Inv, set_election-Inv, thread-ElectionInv, kept_tally,
}
use raft_kvstorage.Cluster.Answers.{
  apart, running-free, begun, start-Inv, no_count, recounted, grants,
}

-- A node that follows its former state rules, if it does, by the votes that it had.
Follows-Sound :
    (n i : ℕ) (s : Node) (sys : System)
    → Inv n sys
    → Keeps (sys.node i) s
    → Follows (sys.node i) s
    → Sound n i s sys
Follows-Sound n i s sys inv k f = record {
  keeps = k;
  me = f.me;
  helpers = f.helpers;
  elected = λ l.
      let (was, same) = f.rules l in
      let more =
        votes_for_mono n sys.vote (note i s sys.vote) (sys.node i).term i
          (note-Extends n i s sys inv k) in
      subst (λ t. n / 2 < votes_for n (note i s sys.vote) t i) (sym same)
        (omega (arith, inv.leaders i was, more));
}

noted : (i t : ℕ) (s : Node) (sys : System) → s.term ≡ t → note i s sys.vote i t ≡ s.vote4
noted i t s sys e = ground arith

abbrev answer_or : RequestVoteReply → Thread → RequestVoteReply
answer_or r (answered r') = r'
answer_or r _ = r

no_leader : (i : Identity) → is_leader i ≡ false → i ≢ leader
unfolding is_leader
no_leader i f e = ground (arith, rw e at f)

candidate_no_leader : candidate ≢ leader
candidate_no_leader e = cc

module _ ⦃c : Codec⦄ where
  stand-Inv :
      (n i now : ℕ) (sys : System)
      → Inv n sys
      → i < n
      → is_leader (sys.node i).identity ≡ false
      → Inv n (after_stand i (stand4election now (sys.node i)).0 sys)
  stand-Inv n i now sys inv lt f =
      let s = (stand4election now (sys.node i)).0 in
      let (same, size) = stand4election-me now (sys.node i) in
      let (grown, voted, stood, _, _) = stand4election_lem now (sys.node i) (no_leader _ f) in
      start-Inv n (new_election s) (set_node i s sys)
        (set_node-Inv n i s sys inv (record {
          keeps = stand4election-Keeps now (sys.node i);
          me = same;
          helpers = size;
          elected = λ l. absurd (candidate_no_leader (sym stood ∙ l));
        }))
        (begun n i s sys lt (same ∙ inv.named i) (voted ∙ ap some (inv.named i)))

  served :
      (j now : ℕ) (args : RequestVoteArgs) (sys : System)
      → let s = (request_vote now args (sys.node j)).0 in
        let r = (request_vote now args (sys.node j)).1 in
        r.vote_granted ≡ true
        → (r.term ≡ args.term) × (note j s sys.vote j args.term ≡ some args.candidate_id)
  served j now args sys g =
      let s = (request_vote now args (sys.node j)).0 in
      let (of, for) = granted-vote4 now args (sys.node j) g in
      (granted-term now args (sys.node j) ∙ of, noted j args.term s sys of ∙ for)

  serve-Inv :
      (n id j now : ℕ) (sys : System)
      → Inv n sys
      → id < sys.started
      → (sys.election id).thread j ≡ waiting
      → Inv n (after_serve id j (request_vote now (sys.election id).args (sys.node j)) sys)
  serve-Inv n id j now sys inv lt w =
      let e = sys.election id in
      let s = (request_vote now e.args (sys.node j)).0 in
      let r = (request_vote now e.args (sys.node j)).1 in
      let k = request_vote-Keeps now e.args (sys.node j) in
      let v = inv.elections id lt in
      let ran : is_running (e.thread j) ≡ true = rw w refl in
      let after =
        ElectionInv-mono n sys.vote (note j s sys.vote) e (note-Extends n j s sys inv k) v in
      set_election-Inv n id (set_thread j (answered r) e) (set_node j s sys)
        (set_node-Inv n j s sys inv
          (Follows-Sound n j s sys inv k (request_vote-Follows now e.args (sys.node j))))
        (thread-ElectionInv n j e.vote_num (answered r) (note j s sys.vote) e after
          (apart n j sys.vote e v ran)
          (λ r' same.
            subst
              (λ a.
                a.vote_granted ≡ true
                → (a.term ≡ e.args.term)
                  × (note j s sys.vote j e.args.term ≡ some e.args.candidate_id))
              (ap (answer_or r) same) (served j now e.args sys))
          (λ same. cc)
          (kept_tally n j (answered r) (note j s sys.vote) e after (running-free _ ran)))

  -- Whether the candidate becomes a leader or not, its majority is on record.
  elected :
      (n j i : ℕ) (r : RequestVoteReply) (vote : ℕ → ℕ → Option ℕ) (e : Election) (sys : System)
      → Inv n sys
      → ElectionInv n sys.vote e
      → j < n
      → e.thread j ≡ answered r
      → e.args.candidate_id ≡ i
      → Extends sys.vote vote
      → let k = send_request_vote true r e.vote_num (sys.node i) in
        k.node.identity ≡ leader → n / 2 < votes_for n vote k.node.term i
  elected n j i r vote e sys inv v lt a is x l =
      let (same, why) = send_request_vote-rules r e.vote_num (sys.node i) l in
      elim why [
        | inl was ↦
            let more = votes_for_mono n sys.vote vote (sys.node i).term i x in
            subst (λ t. n / 2 < votes_for n vote t i) (sym same)
              (omega (arith, inv.leaders i was, more))
        | inr (cv, rt, most) ↦
            let of = (v.answers j r a (grants r (sys.node i) cv)).0 in
            let won = tally-le n vote _ (
              recounted n j (suc e.vote_num) true r vote e (ElectionInv-mono n sys.vote vote e x v)
                lt a (λ b. grants r (sys.node i) cv) (omega arith) (λ b. cc)) in
            let bound : n / 2 < votes_for n vote e.args.term e.args.candidate_id =
              subst (λ m. m / 2 < votes_for n vote e.args.term e.args.candidate_id) (inv.sized i)
                (omega (arith, most, won)) in
            subst (λ t. n / 2 < votes_for n vote t i) (sym of ∙ rt ∙ sym same)
              (subst (λ u. n / 2 < votes_for n vote e.args.term u) is bound)
      ]

  count-Inv :
      (n id j : ℕ) (r : RequestVoteReply) (sys : System)
      → Inv n sys
      → id < sys.started
      → j < n
      → (sys.election id).thread j ≡ answered r
      → Inv n (
          after_count id j r
            (send_request_vote true r
              (sys.election id).vote_num
              (sys.node (sys.election id).args.candidate_id))
            sys)
  count-Inv n id j r sys inv lt jn a =
      let e = sys.election id in
      let i = e.args.candidate_id in
      let k = send_request_vote true r e.vote_num (sys.node i) in
      let vote = note i k.node sys.vote in
      let keeps = send_request_vote-Keeps true r e.vote_num (sys.node i) in
      let x = note-Extends n i k.node sys inv keeps in
      let v = inv.elections id lt in
      let after = ElectionInv-mono n sys.vote vote e x v in
      let (me, helpers) = send_request_vote-me r e.vote_num (sys.node i) in
      let (up, stay) = send_request_vote-count r e.vote_num (sys.node i) in
      set_election-Inv n id
        (record e {
          vote_num = k.vote_num;
          thread = update e.thread j (ended (counts_vote r (sys.node i)));
        })
        (set_node i k.node sys)
        (set_node-Inv n i k.node sys inv (record {
          keeps = keeps;
          me = me;
          helpers = helpers;
          elected = elected n j i r vote e sys inv v jn a refl x;
        }))
        (recounted n j k.vote_num (counts_vote r (sys.node i)) r vote e after jn a
          (grants r (sys.node i)) up stay)

  pub Move-Inv : (n : ℕ) (sys sys' : System) → Inv n sys → Move n sys sys' → Inv n sys'
  Move-Inv n sys _ inv (stand i now lt f) = stand-Inv n i now sys inv lt f
  Move-Inv n sys _ inv (serve id j now lt jn w) = serve-Inv n id j now sys inv lt w
  Move-Inv n sys _ inv (lose id j lt ran) =
      let e = sys.election id in
      let v = inv.elections id lt in
      set_election-Inv n id (set_thread j (ended false) e) sys inv (
        thread-ElectionInv n j e.vote_num (ended false) sys.vote e v (apart n j sys.vote e v ran)
          (λ r' same. cc) (λ same. absurd (no_count same))
          (kept_tally n j (ended false) sys.vote e v (running-free _ ran)))
  Move-Inv n sys _ inv (count id j r lt jn a) = count-Inv n id j r sys inv lt jn a
  Move-Inv n sys _ inv (work i op lt q) =
      let k = step-Keeps op (sys.node i) in
      set_node-Inv n i (step op (sys.node i)) sys inv
        (Follows-Sound n i (step op (sys.node i)) sys inv k (step-Follows op (sys.node i) q))
