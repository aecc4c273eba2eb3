-- ===== src/Hook/Opened.antt =====
-- What a new socket is to the hooks.
use raft_kvstorage.Common.{
  ℕ, ◌^◌, ◌<◌, ◌≡◌, refl, sym, ap, subst, true, inl, inr, Bool-cases, none, some, if◌then◌else◌,
  arith,
}
use raft_kvstorage.Hook.{
  has_nonblock, with_nonblock, Kernel, FdContext, Process, blank_context, set_data, init_context,
  get_context, socket,
}
use raft_kvstorage.Hook.Flags.{IsKernel, IsHooked, has_nonblock-with_nonblock}

abbrev pub as_socket : FdContext → FdContext
as_socket c = record c { is_init = true; is_socket = true; sys_non_block = true }

module _ {S : Type 0} ⦃k : Kernel S⦄ where
  abbrev unblocked : ℕ → S → S
  unblocked fd s =
      if has_nonblock (k.getfl fd s) then s else (k.setfl fd (with_nonblock (k.getfl fd s)) s).0

  init_context-socket :
      (fd : ℕ) (c : FdContext) (s : S)
      → k.fstat fd s ≡ some true
      → init_context fd c s ≡ (as_socket c, unblocked fd s)
  unfolding init_context
  init_context-socket fd c s kind = ground (arith, kind)

  unblocked_lem :
      (fd : ℕ) (s : S)
      → IsKernel k
      → k.fstat fd s ≡ some true
      → (k.fstat fd (unblocked fd s) ≡ some true)
        × (has_nonblock (k.getfl fd (unblocked fd s)) ≡ true)
  unblocked_lem fd s w kind = elim (Bool-cases (has_nonblock (k.getfl fd s))) [
    | inl e ↦ (ground (arith, e, kind), ground (arith, e))
    | inr e ↦
        let f = with_nonblock (k.getfl fd s) in
        (
          ground (arith, e, kind, w.kinds_keep fd fd f s),
          ground (
            arith,
            e,
            w.flags_set fd f s (λ absent. cc),
            has_nonblock-with_nonblock (k.getfl fd s),
          ),
        )
  ]

  get_context-made :
      (fd : ℕ) (p : Process S)
      → fd < 2 ^ 31
      → p.datas fd ≡ none
      → k.fstat fd p.kernel ≡ some true
      → (get_context fd true p).1 ≡ record p {
        kernel = unblocked fd p.kernel;
        datas = set_data fd (some (as_socket blank_context)) p.datas;
      }
  unfolding get_context
  get_context-made fd p small unknown kind =
      ground (arith, small, unknown, init_context-socket fd blank_context p.kernel kind)

  abbrev opened : ℕ → S → Process S → Process S
  opened fd s p = record p {
    kernel = unblocked fd s;
    datas = set_data fd (some (as_socket blank_context)) p.datas;
  }

  socket_lem :
      (fd : ℕ) (s : S) (p : Process S)
      → k.socket_fn p.kernel ≡ (s, fd)
      → p.hook_enable ≡ true
      → fd < 2 ^ 31
      → k.fstat fd s ≡ some true
      → p.datas fd ≡ none
      → socket p ≡ (opened fd s p, fd)
  unfolding socket
  socket_lem fd s p new on small kind unknown =
      ground
        (arith, new, on, small, get_context-made fd (record p { kernel = s }) small unknown kind)

  -- A socket that is made with the hooks on is hooked, with no O_NONBLOCK of its user.
  socket-IsHooked :
      (fd : ℕ) (s : S) (p : Process S)
      → IsKernel k
      → k.socket_fn p.kernel ≡ (s, fd)
      → p.hook_enable ≡ true
      → fd < 2 ^ 31
      → k.fstat fd s ≡ some true
      → p.datas fd ≡ none
      → ((socket p).1 ≡ fd) × IsHooked k (socket p).0 fd (as_socket blank_context)
  unfolding set_data
  socket-IsHooked fd s p w new on small kind unknown =
      let made = socket_lem fd s p new on small kind unknown in
      let (live, set) = unblocked_lem fd s w kind in
      (
        ap (λ r. r.1) made,
        subst (λ q. IsHooked k q fd (as_socket blank_context)) (sym (ap (λ r. r.0) made))
            (record {
              is_fd = small;
              listed = ground arith;
              is_socket = refl;
              not_closed = refl;
              hidden = refl;
              in_kernel = λ absent. cc;
              non_block = set;
            }),
      )
