-- ===== src/Rpc/Provider.antt =====
-- The server's side, src/rpc/rpcProvider.cpp: which services there are, and what a message calls.
-- Services and methods are numbers; the lookup of the host and the event loop are left out.
use raft_kvstorage.Common.{
  ℕ, Bool, List, [], ◌∷◌, Option, none, some, Bytes, zero, suc, length, drop, leb, if◌then◌else◌,
}
use raft_kvstorage.Table.{lookup}
use raft_kvstorage.Raft.Node.{Outcome, done, undefined}
use raft_kvstorage.Rpc.{RpcHeader, Wire}

abbrev pub take {ℓ} : {A : Type ℓ} → ℕ → List A → List A
take zero xs = []
take (suc n) [] = []
take (suc n) (x ∷ xs) = x ∷ take n xs

-- `insert` into an `unordered_map`, which leaves the value of a key that is there.
unfoldable pub insert_new {ℓ} : {A : Type ℓ} → Bytes → A → List (Bytes × A) → List (Bytes × A)
unfolding lookup
insert_new k a m = elim (lookup k m) [ none ↦ (k, a) ∷ m | some b ↦ m ]

-- `serviceInfo`.
pub record Service : Type 0 where
  pub service : ℕ
  pub methods : List (Bytes × ℕ)

unfoldable pub insert_methods : List (Bytes × ℕ) → List (Bytes × ℕ) → List (Bytes × ℕ)
unfolding insert_new
insert_methods [] m = m
insert_methods ((name, method) ∷ more) m = insert_methods more (insert_new name method m)

-- `notifyService`.
unfoldable pub notify_service :
    Bytes → ℕ → List (Bytes × ℕ) → List (Bytes × Service) → List (Bytes × Service)
unfolding insert_methods insert_new
notify_service name service methods services =
    insert_new name (record { service = service; methods = insert_methods methods [] }) services

-- What becomes of a message.
pub data Dispatch : Type 0 where
  called : ℕ → ℕ → Bytes → Dispatch
  bad_header : Dispatch
  bad_args : Dispatch
  no_service : Dispatch
  no_method : Dispatch

-- `ReadString`.
unfoldable pub read_string : ℕ → Bytes → Option (Bytes × Bytes)
read_string n bs = if leb n (length bs) then some (take n bs, drop n bs) else none

module _ (services : List (Bytes × Service)) (parses : ℕ → Bytes → Bool) where
  -- `_M_onMessage` from the point where it has the header and the arguments; `parses` says of a
  -- method and the arguments whether they parse.
  unfoldable pub call : RpcHeader → Bytes → Dispatch
  unfolding lookup
  call h args = elim (lookup h.service_name services) [
    | none ↦ no_service
    | some s ↦ elim (lookup h.method_name s.methods) [
      | none ↦ no_method
      | some method ↦ if parses method args then called s.service method args else bad_args
    ]
  ]

  module _ ⦃w : Wire⦄ where
    unfoldable pub read_args : Option RpcHeader → Bytes → Dispatch
    unfolding call read_string
    read_args none rest = bad_header
    read_args (some h) rest = elim (read_string h.args_size rest) [
      | none ↦ bad_args
      | some (args, _) ↦ call h args
    ]

    -- `_M_onMessage` on all bytes of the buffer. Where the size of the header does not read, the
    -- code goes on with a variable that has no value.
    unfoldable pub on_message : Bytes → Outcome Dispatch
    unfolding read_args read_string
    on_message buffer = elim (w.read_varint buffer) [
      | none ↦ undefined
      | some (n, rest) ↦ elim (read_string n rest) [
        | none ↦ done (read_args (w.parse (w.leftover n rest)) [])
        | some (header, rest') ↦ done (read_args (w.parse header) rest')
      ]
    ]
