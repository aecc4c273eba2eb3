-- ===== src/Raft/Node.antt =====
-- src/raft/include/core/raft.h: the state of a node, and the methods that the handlers share.
use raft_kvstorage.Common.{
  ℕ, ◌+◌, ◌-◌, Bool, true, false, ◌&&◌, ◌||◌, List, [], ◌∷◌, Option, none, some, Bytes, get_elem?,
  last?, ltb, leb, ◌==◌, if◌then◌else◌,
}
use raft_kvstorage.Persister.{Disk, persist_state}
use raft_kvstorage.Raft.Message.{LogEntry}

pub data Identity : Type 0 where
  follower candidate leader : Identity

unfoldable pub is_leader : Identity → Bool
is_leader leader = true
is_leader _ = false

pub data MatchLogResult : Type 0 where
  wrong_index mismatch matches : MatchLogResult

-- What is written to the state file.
pub record PersistNode : Type 0 where
  pub logs : List LogEntry
  pub term : ℕ
  pub vote4 : Option ℕ
  pub last_snapshot_index : ℕ
  pub last_snapshot_term : ℕ

-- The text archive of boost and the serialisation of protobuf, which the program only calls.
-- `decode` is `none` where the archive throws.
pub record Codec : Type 0 where
  pub encode : PersistNode → Bytes
  pub decode : Bytes → Option PersistNode

-- The class `raft`. `helpers` is the size of `_M_helpers`; `vote4` is `none` for -1; a time is
-- the number of a clock tick.
pub record Node : Type 0 where
  pub helpers : ℕ
  pub logs : List LogEntry
  pub next_index : List ℕ
  pub match_index : List ℕ
  pub last_reset_election_time : ℕ
  pub last_reset_heart_beat_time : ℕ
  pub disk : Disk
  pub commit_index : ℕ
  pub applied_index : ℕ
  pub last_snapshot_index : ℕ
  pub last_snapshot_term : ℕ
  pub me : ℕ
  pub term : ℕ
  pub vote4 : Option ℕ
  pub identity : Identity

-- How a method ends: it returns, it throws, or it reads a log outside the deque, which C++ leaves
-- undefined.
pub data Outcome {ℓ} (A : Type ℓ) : Type ℓ where
  done : A → Outcome A
  threw : Outcome A
  undefined : Outcome A

abbrev pub map_outcome {ℓ κ} : {A : Type ℓ} {B : Type κ} → (A → B) → Outcome A → Outcome B
map_outcome f (done a) = done (f a)
map_outcome f threw = threw
map_outcome f undefined = undefined

-- `_M_valideIndex`.
unfoldable pub valid_index : ℕ → ℕ → ℕ → Bool
valid_index lo index hi = leb lo index && leb index hi

unfoldable pub get_state : Node → ℕ × Bool
unfolding is_leader
get_state s = (s.term, is_leader s.identity)

-- `_M_getLastLogIndex` and `_M_getLastLogTerm`.
unfoldable pub last_log_index : Node → ℕ
last_log_index s = elim (last? s.logs) [ none ↦ s.last_snapshot_index | some e ↦ e.index ]

unfoldable pub last_log_term : Node → ℕ
last_log_term s = elim (last? s.logs) [ none ↦ s.last_snapshot_term | some e ↦ e.term ]

unfoldable pub new_command_index : Node → ℕ
unfolding last_log_index
new_command_index s = last_log_index s + 1

-- `_M_getSlicesIndexFromLogIndex`; `none` for a negative subscript.
unfoldable pub slices_index : Node → ℕ → Option ℕ
slices_index s index =
    if ltb s.last_snapshot_index index then some (index - s.last_snapshot_index - 1) else none

-- `_M_logs[_M_getSlicesIndexFromLogIndex(index)]`; `none` outside the deque.
unfoldable pub log_at : Node → ℕ → Option LogEntry
unfolding slices_index
log_at s index = elim (slices_index s index) [ none ↦ none | some i ↦ get_elem? s.logs i ]

-- `_M_getLogTerm`: `done none` is the source's -2.
unfoldable pub log_term : Node → ℕ → Outcome (Option ℕ)
unfolding valid_index
log_term s index =
    if index == s.last_snapshot_index
    then done (some s.last_snapshot_term)
    else if valid_index s.last_snapshot_index index (last_log_index s)
    then elim (log_at s index) [ none ↦ undefined | some e ↦ done (some e.term) ]
    else done none

unfoldable pub match_log_term : Node → ℕ → ℕ → Outcome MatchLogResult
match_log_term s index term = elim (log_term s index) [
  | done none ↦ done wrong_index
  | done (some t) ↦ done (if t == term then matches else mismatch)
  | threw ↦ threw
  | undefined ↦ undefined
]

-- `_M_receiveVote`: the candidate's log is at least as new as this node's.
unfoldable pub receive_vote : Node → ℕ → ℕ → Bool
unfolding last_log_index last_log_term
receive_vote s index term =
    ltb (last_log_term s) term || (term == last_log_term s && leb (last_log_index s) index)

unfoldable pub persist_node : Node → PersistNode
persist_node s = record {
  logs = s.logs;
  term = s.term;
  vote4 = s.vote4;
  last_snapshot_index = s.last_snapshot_index;
  last_snapshot_term = s.last_snapshot_term;
}

module _ ⦃c : Codec⦄ where
  -- `_M_dump`.
  unfoldable pub dump : Node → Bytes
  unfolding persist_node
  dump s = c.encode (persist_node s)

  -- `_M_persist`.
  unfoldable pub persist_self : Node → Node
  unfolding dump persist_state
  persist_self s = record s { disk = persist_state (dump s) s.disk }

  -- `_M_load`.
  unfoldable pub load : Bytes → Node → Outcome Node
  load [] s = done s
  load (b ∷ bs) s = elim (c.decode (b ∷ bs)) [
    | none ↦ threw
    | some n ↦ done (record s {
      term = n.term;
      vote4 = n.vote4;
      last_snapshot_index = n.last_snapshot_index;
      last_snapshot_term = n.last_snapshot_term;
      logs = n.logs;
    })
  ]

  -- `_M_identityChange`.
  unfoldable pub identity_change : Identity → ℕ → Option ℕ → Node → Node
  unfolding persist_self
  identity_change iden term vote s =
      persist_self (record s { identity = iden; term = term; vote4 = vote })
