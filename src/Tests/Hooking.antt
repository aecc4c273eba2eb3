-- ===== src/Tests/Hooking.antt =====
-- The hooks at a kernel that keeps the flags of each descriptor.
use raft_kvstorage.Common.{
  ℕ, ◌≡◌, refl, Bool, true, false, [], ◌∷◌, ◌++◌, none, some, ◌==◌, if◌then◌else◌, arith,
}
use raft_kvstorage.Hook.{
  has_nonblock, with_nonblock, without_nonblock, Kernel, Process, blank_context, fcntl_setfl,
  fcntl_getfl,
}
use raft_kvstorage.Hook.Flags.{
  IsKernel, IsHooked, has_nonblock-with_nonblock, has_nonblock-without_nonblock,
  fcntl_getfl-fcntl_setfl,
}
use raft_kvstorage.Hook.Opened.{as_socket}
use raft_kvstorage.Hook.Io.{
  recv, returned, failed, timed_out, eagain, etimedout, do_io, set_timeout,
}
use raft_kvstorage.Hook.Waits.{busy, wakes, do_io_lem, do_io-set_timeout}

-- The flags of each descriptor; all are sockets.
abbrev Files : Type 0
Files = ℕ → ℕ

abbrev set_file : ℕ → ℕ → Files → Files
set_file fd f s g = if fd == g then f else s g

abbrev set_mode : Bool → ℕ → ℕ
set_mode true f = with_nonblock f
set_mode false f = without_nonblock f

abbrev files : Kernel Files
files = record {
  fstat = λ fd s. some true;
  getfl = λ fd s. s fd;
  setfl = λ fd f s. (set_file fd f s, 0);
  fionbio = λ fd b s. (set_file fd (set_mode b (s fd)) s, 0);
  socket_fn = λ s. (s, 7);
}

set_mode_lem : (b : Bool) (f : ℕ) → has_nonblock (set_mode b f) ≡ b
set_mode_lem true f = has_nonblock-with_nonblock f
set_mode_lem false f = has_nonblock-without_nonblock f

files-IsKernel : IsKernel files
files-IsKernel = record {
  flags_set = λ fd f s live. ground arith;
  mode_set = λ fd b s live. ground (arith, set_mode_lem b (s fd));
  others_keep = λ fd g f s ne. ground arith;
  kinds_keep = λ fd g f s. refl;
}

-- A process with the socket 7.
abbrev process : Process Files
process = record {
  kernel = λ fd. 2050;
  hook_enable = true;
  datas = λ fd. if fd == 7 then some (as_socket blank_context) else none;
}

process-IsHooked : IsHooked files process 7 (as_socket blank_context)
unfolding has_nonblock
process-IsHooked = record {
  is_fd = omega arith;
  listed = refl;
  is_socket = refl;
  not_closed = refl;
  hidden = refl;
  in_kernel = λ absent. cc;
  non_block = refl;
}

fcntl_getfl-fcntl_setfl_example :
    (has_nonblock (fcntl_getfl ⦃k = files⦄ 7 (fcntl_setfl ⦃k = files⦄ 7 2 process).0)
      ≡ has_nonblock 2)
    × (has_nonblock (files.getfl 7 (fcntl_setfl ⦃k = files⦄ 7 2 process).0.kernel) ≡ true)
    × IsHooked files
        (fcntl_setfl ⦃k = files⦄ 7 2 process).0
        7
        (record (as_socket blank_context) { user_non_block = has_nonblock 2 })
fcntl_getfl-fcntl_setfl_example =
    fcntl_getfl-fcntl_setfl ⦃k = files⦄ 7 2 process (as_socket blank_context) files-IsKernel
      process-IsHooked

do_io_lem_example :
    do_io ⦃k = files⦄ 7 recv
      (busy (true ∷ false ∷ []) ++ returned 5 ∷ [])
      (wakes (true ∷ false ∷ []) ++ [])
      process
    ≡ some (returned 5)
do_io_lem_example =
    do_io_lem ⦃k = files⦄ 7 recv (true ∷ false ∷ []) (returned 5) [] [] process
      (as_socket blank_context) process-IsHooked refl refl tt

-- The time-out 0, which asks for none.
do_io-set_timeout_example :
    do_io ⦃k = files⦄ 7 recv
      (busy (false ∷ []) ++ failed eagain ∷ returned 5 ∷ [])
      (wakes (false ∷ []) ++ timed_out ∷ [])
      (set_timeout ⦃k = files⦄ 7 recv 0 0 process)
    ≡ some (failed etimedout)
do_io-set_timeout_example =
    do_io-set_timeout ⦃k = files⦄ 7 recv 0 0 (false ∷ []) (returned 5 ∷ []) [] process
      (as_socket blank_context) process-IsHooked refl refl (omega arith)
