-- ===== src/Raft/Ticker.antt =====
-- The rounds of the threads of a node: raft::_L_daemonTicker and _L_applierTicker of
-- src/raft/src/core/raft.cpp. Times are in milliseconds.
pub mod Heard
use raft_kvstorage.Common.{ℕ, ◌+◌, ◌-◌, Bool, true, false, List, [], ◌++◌, ltb, if◌then◌else◌}
use raft_kvstorage.Raft.Message.{RequestVoteArgs}
use raft_kvstorage.Raft.Node.{Node, Codec, Outcome, done, threw, undefined, Identity, is_leader}
use raft_kvstorage.Raft.Vote.{stand4election}
use raft_kvstorage.Raft.Leader.{Send, heart_beat}
use raft_kvstorage.Raft.Apply.{ApplyMessage, get_apply_messages}

-- RAFT_HEARTBEAT_SLEEP_TIME.
abbrev pub heart_beat_sleep : ℕ
heart_beat_sleep = 250

-- The time that is slept until `wait` after `last`: none where that is past or 1 away.
unfoldable pub sleep_time : ℕ → ℕ → ℕ → ℕ
sleep_time last wait now = let d = last + wait - now in if ltb 1 d then d else 0

-- How long a round of `_L_daemonTicker` sleeps; `random` is `_M_randomWaitTimeBeforeElection()`.
unfoldable pub daemon_sleep : ℕ → ℕ → Node → ℕ
unfolding is_leader sleep_time
daemon_sleep random now s =
    if is_leader s.identity
    then sleep_time s.last_reset_heart_beat_time heart_beat_sleep now
    else sleep_time s.last_reset_election_time random now

-- What a round does after it slept: it begins again, sends a heartbeat, or stands for election.
pub data Action : Type 0 where
  again : Action
  beat : Outcome (List Send) → Action
  stood : List (ℕ × RequestVoteArgs) → Action

module _ ⦃c : Codec⦄ where
  -- The rest of a round that found `was` for the identity at its begin and read the clock at `slept`:
  -- at `now` the node is `s`.
  unfoldable pub daemon_act : Identity → ℕ → ℕ → Node → Node × Action
  unfolding is_leader heart_beat stand4election
  daemon_act was slept now s =
      if is_leader was
      then (if ltb slept s.last_reset_heart_beat_time
          then (s, again)
          else let (t, sends) = heart_beat now s in (t, beat sends))
      else if ltb slept s.last_reset_election_time
      then (s, again)
      else let (t, requests) = stand4election now s in (t, stood requests)

-- A round of `_L_applierTicker`: the messages that are behind those in `_M_applyChan` afterwards.
unfoldable pub applier_round : Node → List ApplyMessage → Node × Outcome (List ApplyMessage)
unfolding get_apply_messages
applier_round s chan =
    let (t, messages) = get_apply_messages s in
    elim messages [
      | done ms ↦ (t, done (chan ++ ms))
      | threw ↦ (t, threw)
      | undefined ↦ (t, undefined)
    ]
