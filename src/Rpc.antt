-- ===== src/Rpc.antt =====
-- The remote procedure calls of src/rpc: the controller and the channel of a client
-- (mprpcController.cpp, mprpcChannel.cpp). What protobuf writes and reads is a parameter, and so are
-- the results of the socket calls.
pub mod Provider
pub mod Frame
pub mod Exchange
pub mod Config
pub mod Lines
use raft_kvstorage.Common.{
  ℕ, ◌≡◌, ◌<◌, ◌-◌, ◌%◌, ◌^◌, Bool, true, false, List, [], ◌∷◌, ◌++◌, Option, none, some, Bytes,
  length, ◌==◌, if◌then◌else◌,
}

-- `rpcHeader` of src/rpc/rpcHeader.proto.
pub record RpcHeader : Type 0 where
  pub service_name : Bytes
  pub method_name : Bytes
  pub args_size : ℕ

-- protobuf: `WriteVarint32`, `ReadVarint32`, the serialisation of a header, and what a `ReadString`
-- that finds too few bytes leaves in its string.
pub record Wire : Type 0 where
  pub varint : ℕ → Bytes
  pub read_varint : Bytes → Option (ℕ × Bytes)
  pub serialize : RpcHeader → Option Bytes
  pub parse : Bytes → Option RpcHeader
  pub leftover : ℕ → Bytes → Bytes

-- What is read is what was written.
pub record IsWire ⦃w : Wire⦄ : Type 0 where
  pub read-varint :
      (n : ℕ) (rest : Bytes) → n < 2 ^ 32 → w.read_varint (w.varint n ++ rest) ≡ some (n, rest)
  pub parse-serialize : (h : RpcHeader) (bs : Bytes) → w.serialize h ≡ some bs → w.parse bs ≡ some h

-- Why a call failed; numbers are values of `errno`.
pub data Failure : Type 0 where
  no_connection : ℕ → Failure
  no_request : Failure
  no_header : Failure
  no_answer : ℕ → Failure
  no_response : Failure

-- `mprpcController`.
pub record Controller : Type 0 where
  pub failed : Bool
  pub message : Option Failure

unfoldable pub new_controller : Controller
new_controller = record { failed = false; message = none }

unfoldable pub reset_controller : Controller → Controller
reset_controller c = record { failed = false; message = none }

unfoldable pub set_failed : Failure → Controller → Controller
set_failed f c = record { failed = true; message = some f }

-- `mprpcChannel`; the descriptor is `none` for -1.
pub record Channel : Type 0 where
  pub client_fd : Option ℕ

-- How `socket` and `connect` come out.
pub data Attempt : Type 0 where
  connected : ℕ → Attempt
  broken : ℕ → Attempt

-- `_M_connect`: the second part is the error.
unfoldable pub connect : Attempt → Channel → Channel × Option ℕ
connect (connected fd) c = (record { client_fd = some fd }, none)
connect (broken e) c = (record { client_fd = none }, some e)

-- The loop of the constructor, with its counter.
unfoldable pub connect_again : ℕ → List Attempt → Channel → Channel
unfolding connect
connect_again counter [] c = c
connect_again counter (a ∷ attempts) c =
    let again = connect_again (counter - 1) attempts (connect a c).0 in
    elim (connect a c).1 [
      | none ↦ (connect a c).0
      | some e ↦ if counter == 0 then (connect a c).0 else again
    ]

unfoldable pub new_channel : Bool → List Attempt → Channel
unfolding connect_again
new_channel connect_now attempts =
    let c : Channel = record { client_fd = none } in
    if connect_now then connect_again 3 attempts c else c

-- The sending loop. The list has the attempt to connect after each `send` that fails; at its end
-- `send` goes through.
unfoldable pub send_loop : List Attempt → Channel → Channel × Option ℕ
unfolding connect
send_loop [] c = (c, none)
send_loop (a ∷ attempts) c =
    let rest = send_loop attempts (connect a c).0 in
    elim (connect a c).1 [ none ↦ rest | some e ↦ ((connect a c).0, some e) ]

-- What `recv` yields: at most 1024 bytes, or an error.
pub data Received : Type 0 where
  got : Bytes → Received
  lost : ℕ → Received

-- The results of the socket calls in a call.
pub record Net : Type 0 where
  pub first : Attempt
  pub resend : List Attempt
  pub received : Received

-- `sent` is the request that went out, `response` what is parsed as the response.
pub record CallResult : Type 0 where
  pub channel : Channel
  pub controller : Controller
  pub sent : Option Bytes
  pub response : Option Bytes

module _ ⦃w : Wire⦄ where
  -- The request: the size of the header, the header, the arguments.
  unfoldable pub frame : Bytes → Bytes → Bytes
  frame header args = w.varint (length header % 2 ^ 32) ++ (header ++ args)

  -- The last part of `CallMethod`, from the answer on; `parses` is `ParseFromArray`.
  unfoldable pub receive : (Bytes → Bool) → Received → Bytes → Controller → Channel → CallResult
  unfolding set_failed
  receive parses (got bs) f ctrl c = record {
    channel = c;
    controller = if parses bs then ctrl else set_failed no_response ctrl;
    sent = some f;
    response = if parses bs then some bs else none;
  }
  receive parses (lost e) f ctrl c = record {
    channel = record { client_fd = none };
    controller = set_failed (no_answer e) ctrl;
    sent = some f;
    response = none;
  }

  abbrev pub given_up : Failure → Controller → Channel → CallResult
  given_up why ctrl c = record {
    channel = c;
    controller = set_failed why ctrl;
    sent = none;
    response = none;
  }

  -- The part of `CallMethod` over a channel that is connected. The arguments are `none` where they
  -- do not serialise.
  unfoldable pub request :
      Bytes → Bytes → Option Bytes → (Bytes → Bool) → Net → Controller → Channel → CallResult
  unfolding frame send_loop receive set_failed
  request service method none parses net ctrl c = given_up no_request ctrl c
  request service method (some args) parses net ctrl c =
      elim (w.serialize (record {
        service_name = service;
        method_name = method;
        args_size = length args % 2 ^ 32;
      })) [
        | none ↦ given_up no_header ctrl c
        | some header ↦ elim (send_loop net.resend c).1 [
          | some e ↦ given_up (no_connection e) ctrl (send_loop net.resend c).0
          | none ↦ receive parses net.received (frame header args) ctrl (send_loop net.resend c).0
        ]
      ]

  -- `CallMethod`.
  unfoldable pub call_method :
      Bytes → Bytes → Option Bytes → (Bytes → Bool) → Net → Controller → Channel → CallResult
  unfolding request connect
  call_method service method args parses net ctrl c = elim c.client_fd [
    | some fd ↦ request service method args parses net ctrl c
    | none ↦ elim (connect net.first c).1 [
      | some e ↦ given_up (no_connection e) ctrl (connect net.first c).0
      | none ↦ request service method args parses net ctrl (connect net.first c).0
    ]
  ]
