-- ===== src/Clerk.antt =====
-- The class clerk of src/raft/src/clerk/clerk.cpp.
pub mod Rotation
use raft_kvstorage.Common.{ℕ, zero, suc, ◌+◌, ◌%◌, Option, none, some, Bytes, []}
use raft_kvstorage.Operation.{GetArgs, PutArgs, Err, ok, no_key, timeout, wrong_leader, GetReply}

-- `servers` is the size of `_M_servers`.
pub record Clerk : Type 0 where
  pub servers : ℕ
  pub client_id : Bytes
  pub request_id : ℕ
  pub leader_id : ℕ

unfoldable pub get_args : Bytes → Clerk → GetArgs
get_args key c = record { key = key; client_id = c.client_id; request_id = c.request_id + 1 }

unfoldable pub put_args : Bytes → Bytes → Clerk → PutArgs
put_args key value c = record {
  key = key;
  value = value;
  client_id = c.client_id;
  request_id = c.request_id + 1;
}

-- `leaderId = (leaderId + 1) % _M_servers.size()`.
unfoldable pub next_server : ℕ → ℕ → ℕ
next_server servers i = (i + 1) % servers

-- The loop of `get`. `ask round i` is what server `i` answers in that round: `none` where the call
-- fails. The result is the value and the leader that is kept; it is `none` when the rounds are
-- used up.
unfoldable pub get_loop : ℕ → (ℕ → ℕ → Option GetReply) → ℕ → ℕ → ℕ → ℕ → Option (Bytes × ℕ)
unfolding next_server
get_loop zero ask servers kept round i = none
get_loop (suc fuel) ask servers kept round i =
    let other = get_loop fuel ask servers kept (round + 1) (next_server servers i) in
    let again = get_loop fuel ask servers kept (round + 1) i in
    elim (ask round i) [
      | none ↦ other
      | some reply ↦ elim reply.err [
        | wrong_leader ↦ other
        | no_key ↦ some ([], kept)
        | ok ↦ some (reply.value, i)
        | timeout ↦ again
      ]
    ]

-- The loop of `put`: the result is the leader that is kept.
unfoldable pub put_loop : ℕ → (ℕ → ℕ → Option Err) → ℕ → ℕ → ℕ → Option ℕ
unfolding next_server
put_loop zero ask servers round i = none
put_loop (suc fuel) ask servers round i =
    let other = put_loop fuel ask servers (round + 1) (next_server servers i) in
    let again = put_loop fuel ask servers (round + 1) i in
    elim (ask round i) [
      | none ↦ other
      | some ok ↦ some i
      | some wrong_leader ↦ other
      | some no_key ↦ again
      | some timeout ↦ again
    ]

-- `get` and `put`, with the rounds that they may take.
unfoldable pub get :
    ℕ → (GetArgs → ℕ → ℕ → Option GetReply) → Bytes → Clerk → Option (Clerk × Bytes)
unfolding get_args get_loop
get fuel ask key c =
    elim (get_loop fuel (ask (get_args key c)) c.servers c.leader_id 0 c.leader_id) [
      | none ↦ none
      | some (value, i) ↦ some (record c { request_id = c.request_id + 1; leader_id = i }, value)
    ]

unfoldable pub put : ℕ → (PutArgs → ℕ → ℕ → Option Err) → Bytes → Bytes → Clerk → Option Clerk
unfolding put_args put_loop
put fuel ask key value c =
    elim (put_loop fuel (ask (put_args key value c)) c.servers 0 c.leader_id) [
      | none ↦ none
      | some i ↦ some (record c { request_id = c.request_id + 1; leader_id = i })
    ]
