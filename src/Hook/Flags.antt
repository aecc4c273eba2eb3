-- ===== src/Hook/Flags.antt =====
-- What a process sees of O_NONBLOCK, and what the kernel has.
use raft_kvstorage.Common.{
  ℕ, ◌^◌, ◌<◌, ◌≡◌, ◌≢◌, sym, ap, subst, ◌∙◌, Bool, true, false, inl, inr, Bool-cases, none, some,
  arith,
}
use raft_kvstorage.Hook.{
  has_nonblock, with_nonblock, without_nonblock, Kernel, FdContext, Process, set_data, get_context,
  fcntl_setfl, fcntl_getfl, ioctl_fionbio,
}

pub has_nonblock-with_nonblock : (f : ℕ) → has_nonblock (with_nonblock f) ≡ true
unfolding has_nonblock with_nonblock
has_nonblock-with_nonblock f = elim (Bool-cases (has_nonblock f)) [
  | inl e ↦ ground (arith, e)
  | inr e ↦ ground (arith, e)
]

pub has_nonblock-without_nonblock : (f : ℕ) → has_nonblock (without_nonblock f) ≡ false
unfolding has_nonblock without_nonblock
has_nonblock-without_nonblock f = elim (Bool-cases (has_nonblock f)) [
  | inl e ↦ ground (arith, e)
  | inr e ↦ ground (arith, e)
]

-- What the C library says of the calls, for an open descriptor: F_GETFL and FIONBIO read and write
-- the flag that F_SETFL sets, for the descriptor alone, and a new descriptor is open.
pub record IsKernel {S : Type 0} (k : Kernel S) : Type 0 where
  pub flags_set :
      (fd f : ℕ) (s : S)
      → k.fstat fd s ≢ none
      → has_nonblock (k.getfl fd (k.setfl fd f s).0) ≡ has_nonblock f
  pub mode_set :
      (fd : ℕ) (b : Bool) (s : S)
      → k.fstat fd s ≢ none
      → has_nonblock (k.getfl fd (k.fionbio fd b s).0) ≡ b
  pub others_keep : (fd g f : ℕ) (s : S) → fd ≢ g → k.getfl g (k.setfl fd f s).0 ≡ k.getfl g s
  pub kinds_keep : (fd g f : ℕ) (s : S) → k.fstat g (k.setfl fd f s).0 ≡ k.fstat g s

-- The descriptor stands in the table as a socket, and the kernel has it open.
pub record IsHooked {S : Type 0} (k : Kernel S) (p : Process S) (fd : ℕ) (c : FdContext)
    : Type 0 where
  pub is_fd : fd < 2 ^ 31
  pub listed : p.datas fd ≡ some c
  pub is_socket : c.is_socket ≡ true
  pub not_closed : c.is_close ≡ false
  pub hidden : c.sys_non_block ≡ true
  pub in_kernel : k.fstat fd p.kernel ≢ none
  pub non_block : has_nonblock (k.getfl fd p.kernel) ≡ true

module _ {S : Type 0} ⦃k : Kernel S⦄ where
  pub get_context-listed :
      (fd : ℕ) (a : Bool) (p : Process S) (c : FdContext)
      → IsHooked k p fd c
      → get_context fd a p ≡ (some c, p)
  unfolding get_context
  get_context-listed fd a p c h = ground (arith, h.is_fd, h.listed)

  -- The process after `fcntl(fd, F_SETFL, arg)` or `ioctl`, with a new state of the kernel.
  abbrev asked : ℕ → FdContext → Bool → S → Process S → Process S
  asked fd c b s p = record p {
    kernel = s;
    datas = set_data fd (some (record c { user_non_block = b })) p.datas;
  }

  fcntl_setfl-asked :
      (fd arg : ℕ) (p : Process S) (c : FdContext)
      → IsHooked k p fd c
      → (fcntl_setfl fd arg p).0
        ≡ asked fd c (has_nonblock arg) (k.setfl fd (with_nonblock arg) p.kernel).0 p
  unfolding fcntl_setfl
  fcntl_setfl-asked fd arg p c h =
      ground (arith, get_context-listed fd false p c h, h.is_socket, h.not_closed, h.hidden)

  ioctl_fionbio-asked :
      (fd : ℕ) (b : Bool) (p : Process S) (c : FdContext)
      → IsHooked k p fd c
      → (ioctl_fionbio fd b p).0 ≡ asked fd c b (k.fionbio fd b p.kernel).0 p
  unfolding ioctl_fionbio
  ioctl_fionbio-asked fd b p c h =
      ground (arith, get_context-listed fd false p c h, h.is_socket, h.not_closed)

  asked-IsHooked :
      (fd : ℕ) (b : Bool) (s : S) (p : Process S) (c : FdContext)
      → IsHooked k p fd c
      → k.fstat fd s ≢ none
      → has_nonblock (k.getfl fd s) ≡ true
      → IsHooked k (asked fd c b s p) fd (record c { user_non_block = b })
  unfolding set_data
  asked-IsHooked fd b s p c h live set = record {
    is_fd = h.is_fd;
    listed = ground arith;
    is_socket = h.is_socket;
    not_closed = h.not_closed;
    hidden = h.hidden;
    in_kernel = live;
    non_block = set;
  }

  fcntl_setfl-IsHooked :
      (fd arg : ℕ) (p : Process S) (c : FdContext)
      → IsKernel k
      → IsHooked k p fd c
      → IsHooked k (fcntl_setfl fd arg p).0 fd (record c { user_non_block = has_nonblock arg })
  fcntl_setfl-IsHooked fd arg p c w h =
      let s = (k.setfl fd (with_nonblock arg) p.kernel).0 in
      subst (λ q. IsHooked k q fd (record c { user_non_block = has_nonblock arg }))
        (sym (fcntl_setfl-asked fd arg p c h))
        (asked-IsHooked fd (has_nonblock arg) s p c h
          (λ e. h.in_kernel (sym (w.kinds_keep fd fd (with_nonblock arg) p.kernel) ∙ e))
          (w.flags_set fd (with_nonblock arg) p.kernel h.in_kernel
            ∙ has_nonblock-with_nonblock arg))

  getfl_user :
      (fd : ℕ) (p : Process S) (c : FdContext)
      → IsHooked k p fd c
      → has_nonblock (fcntl_getfl fd p) ≡ c.user_non_block
  unfolding fcntl_getfl
  getfl_user fd p c h = ground (
    arith,
    get_context-listed fd false p c h,
    h.is_socket,
    h.not_closed,
    has_nonblock-with_nonblock (k.getfl fd p.kernel),
    has_nonblock-without_nonblock (k.getfl fd p.kernel),
  )

  -- Where the kernel keeps flags as documented, for a hooked socket, F_GETFL reads the O_NONBLOCK that the last F_SETFL wrote, whatever it was,
  -- while the kernel has it set, and the socket stays hooked.
  pub fcntl_getfl-fcntl_setfl :
      (fd arg : ℕ) (p : Process S) (c : FdContext)
      → IsKernel k
      → IsHooked k p fd c
      → (has_nonblock (fcntl_getfl fd (fcntl_setfl fd arg p).0) ≡ has_nonblock arg)
        × (has_nonblock (k.getfl fd (fcntl_setfl fd arg p).0.kernel) ≡ true)
        × IsHooked k (fcntl_setfl fd arg p).0 fd (record c { user_non_block = has_nonblock arg })
  fcntl_getfl-fcntl_setfl fd arg p c w h =
      let kept = fcntl_setfl-IsHooked fd arg p c w h in
      (
        getfl_user fd (fcntl_setfl fd arg p).0 (record c { user_non_block = has_nonblock arg })
            kept,
        kept.non_block,
        kept,
      )

  -- After FIONBIO with 0 on a hooked socket, the kernel's calls on it block, although its context
  -- says that they do not.
  ioctl_fionbio-blocks :
      (fd : ℕ) (p : Process S) (c : FdContext)
      → IsKernel k
      → IsHooked k p fd c
      → (d : FdContext) × ((ioctl_fionbio fd false p).0.datas fd ≡ some d)
        × (d.sys_non_block ≡ true)
        × (has_nonblock (k.getfl fd (ioctl_fionbio fd false p).0.kernel) ≡ false)
  unfolding set_data
  ioctl_fionbio-blocks fd p c w h =
      let d = record c { user_non_block = false } in
      let q = asked fd c false (k.fionbio fd false p.kernel).0 p in
      let same = ioctl_fionbio-asked fd false p c h in
      (
        d,
        ap (λ r. r.datas fd) same ∙ ground arith,
        h.hidden,
        ap (λ r. has_nonblock (k.getfl fd r.kernel)) same
            ∙ w.mode_set fd false p.kernel h.in_kernel,
      )
