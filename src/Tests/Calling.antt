-- ===== src/Tests/Calling.antt =====
-- A remote call and a configuration file at concrete inputs.
use raft_kvstorage.Common.{
  ℕ, ◌≡◌, refl, true, List, [], ◌∷◌, ◌++◌, Option, none, some, Bytes, length, drop, subst, ap,
  arith,
}
use mathlib.Core.Option.{some-injective}
use raft_kvstorage.Raft.Node.{done}
use raft_kvstorage.Rpc.{
  RpcHeader, Wire, IsWire, Net, connected, broken, got, new_controller, frame, call_method,
}
use raft_kvstorage.Rpc.Provider.{take, Service, call, bad_args, on_message}
use raft_kvstorage.Rpc.Frame.{take-append, drop-append, on_message-frame, on_message-cut}
use raft_kvstorage.Rpc.Exchange.{call_method-on_message}

-- A wire that writes a number in one cell.
abbrev read_cell : Bytes → Option (ℕ × Bytes)
read_cell [] = none
read_cell (n ∷ rest) = some (n, rest)

abbrev parse_cells : Bytes → Option RpcHeader
parse_cells [] = none
parse_cells (a ∷ []) = none
parse_cells (a ∷ n ∷ bs) =
    some (record { service_name = take n bs; method_name = drop n bs; args_size = a })

abbrev wire : Wire
wire = record {
  varint = λ n. n ∷ [];
  read_varint = read_cell;
  serialize = λ h. some (h.args_size ∷ length h.service_name ∷ (h.service_name ++ h.method_name));
  parse = parse_cells;
  leftover = λ n bs. bs;
}

parse_written : (h : RpcHeader) (bs : Bytes) → wire.serialize h ≡ some bs → wire.parse bs ≡ some h
parse_written h bs e =
    subst (λ x. parse_cells x ≡ some h)
      (some-injective (h.args_size ∷ length h.service_name ∷ (h.service_name ++ h.method_name)) bs
        e)
      (ground
        (arith, take-append h.service_name h.method_name, drop-append h.service_name h.method_name))

wire-IsWire : IsWire ⦃w = wire⦄
wire-IsWire = record { read-varint = λ n rest lt. refl; parse-serialize = parse_written }

-- Service 1 ∷ [] is number 4, with method 2 ∷ [], number 7.
abbrev services : List (Bytes × Service)
services = (1 ∷ [], record { service = 4; methods = (2 ∷ [], 7) ∷ [] }) ∷ []

abbrev net : Net
net = record { first = connected 5; resend = broken 1 ∷ []; received = got [] }

abbrev good_net : Net
good_net = record { first = connected 5; resend = connected 6 ∷ []; received = got [] }

abbrev sent_frame : Bytes
sent_frame = 4 ∷ 3 ∷ 1 ∷ 1 ∷ 2 ∷ 9 ∷ 9 ∷ 9 ∷ []

call_method-on_message_example :
    on_message services (λ m bs. true) ⦃w = wire⦄ sent_frame
    ≡ done (
        call services
          (λ m bs. true)
          (record { service_name = 1 ∷ []; method_name = 2 ∷ []; args_size = 3 })
          (9 ∷ 9 ∷ 9 ∷ []))
unfolding call_method
call_method-on_message_example =
    call_method-on_message ⦃w = wire⦄ (1 ∷ []) (2 ∷ []) (λ bs. true) good_net new_controller
      services (λ m bs. true) wire-IsWire (9 ∷ 9 ∷ 9 ∷ []) sent_frame (record { client_fd = none })
      (omega arith) (λ header e. omega (arith, ap length (some-injective _ header e))) refl

on_message-frame_example :
    on_message services
      (λ m bs. true)
      ⦃w = wire⦄
      (frame ⦃w = wire⦄ (3 ∷ 1 ∷ 1 ∷ 2 ∷ []) (9 ∷ 9 ∷ 9 ∷ []) ++ sent_frame)
    ≡ done (
        call services
          (λ m bs. true)
          (record { service_name = 1 ∷ []; method_name = 2 ∷ []; args_size = 3 })
          (9 ∷ 9 ∷ 9 ∷ []))
on_message-frame_example =
    on_message-frame services (λ m bs. true) ⦃w = wire⦄ wire-IsWire
      (record { service_name = 1 ∷ []; method_name = 2 ∷ []; args_size = 3 }) (3 ∷ 1 ∷ 1 ∷ 2 ∷ [])
      refl (omega arith) (9 ∷ 9 ∷ 9 ∷ []) sent_frame refl

on_message-cut_example :
    on_message services
      (λ m bs. true)
      ⦃w = wire⦄
      (frame ⦃w = wire⦄ (3 ∷ 1 ∷ 1 ∷ 2 ∷ []) (9 ∷ 9 ∷ []))
    ≡ done bad_args
on_message-cut_example =
    on_message-cut services (λ m bs. true) ⦃w = wire⦄ wire-IsWire
      (record { service_name = 1 ∷ []; method_name = 2 ∷ []; args_size = 3 }) (3 ∷ 1 ∷ 1 ∷ 2 ∷ [])
      refl (omega arith) (9 ∷ 9 ∷ []) (9 ∷ []) refl (λ e. cc)
