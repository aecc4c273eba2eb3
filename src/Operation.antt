-- ===== src/Operation.antt =====
-- The commands of src/utils.h and the messages of src/raft/kvServerBase.proto.
use raft_kvstorage.Common.{ℕ, [], ◌∷◌, Option, none, some, Bytes, Bool, true, false}
use raft_kvstorage.Raft.Node.{Outcome, done, threw, undefined}

-- `op::operation_t`.
pub data Kind : Type 0 where
  invalid get put : Kind

unfoldable pub is_put : Kind → Bool
is_put put = true
is_put _ = false

-- `struct op`. The archive writes the kind by its name and reads an unknown name as `invalid`.
pub record Op : Type 0 where
  pub operation : Kind
  pub key : Bytes
  pub value : Bytes
  pub client_id : Bytes
  pub request_id : ℕ

-- The text archive of boost at a command. `decode` is `none` where the archive throws.
pub record OpArchive : Type 0 where
  pub encode : Op → Bytes
  pub decode : Bytes → Option Op

pub record GetArgs : Type 0 where
  pub key : Bytes
  pub client_id : Bytes
  pub request_id : ℕ

pub record PutArgs : Type 0 where
  pub key : Bytes
  pub value : Bytes
  pub client_id : Bytes
  pub request_id : ℕ

-- The `err` of a reply: the macros RAFT_OK, RAFT_ERR_NO_KEY, RAFT_TIMEOUT and
-- RAFT_ERR_WRONG_LEADER of src/raft/include/config.h.
pub data Err : Type 0 where
  ok no_key timeout wrong_leader : Err

pub record GetReply : Type 0 where
  pub err : Err
  pub value : Bytes

unfoldable pub get_command : GetArgs → Op
get_command args = record {
  operation = get;
  key = args.key;
  value = [];
  client_id = args.client_id;
  request_id = args.request_id;
}

unfoldable pub put_command : PutArgs → Op
put_command args = record {
  operation = put;
  key = args.key;
  value = args.value;
  client_id = args.client_id;
  request_id = args.request_id;
}

module _ ⦃a : OpArchive⦄ where
  -- `op::load` into a command that its declaration leaves without values: of an empty string it
  -- loads nothing, and what the caller reads then is undefined.
  unfoldable pub load_op : Bytes → Outcome Op
  load_op [] = undefined
  load_op (b ∷ bs) = elim (a.decode (b ∷ bs)) [ none ↦ threw | some c ↦ done c ]
