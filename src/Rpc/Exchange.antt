-- ===== src/Rpc/Exchange.antt =====
-- A call of a channel, and what the server makes of it.
use raft_kvstorage.Common.{
  ℕ, ◌<◌, ◌^◌, ◌%◌, ◌≡◌, refl, sym, ap, ◌∙◌, subst, Bool, inl, inr, List, [], ◌++◌, Option, none,
  some, Option-cases, Bytes, length, arith,
}
use mathlib.Core.List.{append-nil}
use mathlib.Core.Option.{some-injective}
use raft_kvstorage.Raft.Node.{done}
use raft_kvstorage.Rpc.{
  RpcHeader, Wire, IsWire, Controller, Channel, Net, Received, got, lost, frame, receive, request,
  call_method, send_loop, connect,
}
use raft_kvstorage.Rpc.Provider.{Service, call, on_message}
use raft_kvstorage.Rpc.Frame.{on_message-frame}

module _ ⦃w : Wire⦄ (service method : Bytes) (parses : Bytes → Bool) (net : Net)
    (ctrl : Controller) where
  abbrev pub header_of : Bytes → RpcHeader
  header_of args = record {
    service_name = service;
    method_name = method;
    args_size = length args % 2 ^ 32;
  }

  -- What went out is a header and the arguments.
  abbrev Sends : Option Bytes → Bytes → Type 0
  Sends args f =
      (bs : Bytes) × (header : Bytes) × (args ≡ some bs)
      × (w.serialize (header_of bs) ≡ some header)
      × (f ≡ frame header bs)

  receive-sent :
      (r : Received) (f g : Bytes) (c : Channel) → (receive parses r f ctrl c).sent ≡ some g → g ≡ f
  unfolding receive
  receive-sent (got bs) f g c e = ground (arith, e)
  receive-sent (lost n) f g c e = ground (arith, e)

  request-sent :
      (args : Option Bytes) (c : Channel) (f : Bytes)
      → (request service method args parses net ctrl c).sent ≡ some f
      → Sends args f
  unfolding request
  request-sent none c f e = cc
  request-sent (some bs) c f e = elim (Option-cases (w.serialize (header_of bs))) [
    | inl no_header' ↦ absurd (ground (arith, no_header', e))
    | inr (header, written) ↦ elim (Option-cases (send_loop net.resend c).1) [
      | inr (n, failed) ↦ absurd (ground (arith, written, failed, e))
      | inl through ↦ (
        bs,
        header,
        refl,
        written,
        receive-sent net.received (frame header bs) f (send_loop net.resend c).0
            (ground (arith, written, through, e)),
      )
    ]
  ]

  call_method-sent :
      (args : Option Bytes) (c : Channel) (f : Bytes)
      → (call_method service method args parses net ctrl c).sent ≡ some f
      → Sends args f
  unfolding call_method
  call_method-sent args c f e = elim (Option-cases c.client_fd) [
    | inr (fd, open') ↦ request-sent args c f (ground (arith, open', e))
    | inl closed ↦ elim (Option-cases (connect net.first c).1) [
      | inr (n, failed) ↦ absurd (ground (arith, closed, failed, e))
      | inl fine ↦ request-sent args (connect net.first c).0 f (ground (arith, closed, fine, e))
    ]
  ]

  -- Whatever the socket calls do, a request that goes out calls, at a server that has it alone in
  -- its buffer, the method of the service that the client named, on the client's arguments.
  pub call_method-on_message :
      (services : List (Bytes × Service)) (server_parses : ℕ → Bytes → Bool) (i : IsWire)
      (args f : Bytes) (c : Channel)
      → length args < 2 ^ 32
      → ((header : Bytes) → w.serialize (header_of args) ≡ some header → length header < 2 ^ 32)
      → (call_method service method (some args) parses net ctrl c).sent ≡ some f
      → on_message services server_parses f
        ≡ done
            (call services server_parses (record (header_of args) { args_size = length args }) args)
  call_method-on_message services server_parses i args f c small short e =
      let (bs, header, same, written, sent) = call_method-sent (some args) c f e in
      let size : length args % 2 ^ 32 ≡ length args = omega (arith, small) in
      let written' : w.serialize (header_of args) ≡ some header =
        subst (λ x. w.serialize (header_of x) ≡ some header) (sym (some-injective args bs same))
          written in
      let whole : f ≡ frame header args ++ [] =
        sent
        ∙ ap (frame header) (sym (some-injective args bs same))
        ∙ sym (append-nil (frame header args)) in
      ap (on_message services server_parses) whole
      ∙ on_message-frame services server_parses i (header_of args) header written'
          (short header written') args [] size
      ∙ ap
          (λ n. done (call services server_parses (record (header_of args) { args_size = n }) args))
          size
