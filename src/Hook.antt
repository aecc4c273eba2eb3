-- ===== src/Hook.antt =====
-- The hooked calls of src/cort/hook.cpp that read or write the flags of a descriptor, with the class
-- fdContext of include/fdman.h and the table of descriptors of faman.cpp. An `int` is its 32 bits.
pub mod Flags
pub mod Opened
pub mod Io
pub mod Waits
use raft_kvstorage.Common.{
  ℕ, ◌+◌, ◌-◌, ◌/◌, ◌%◌, ◌^◌, Bool, true, false, not, ◌&&◌, ◌||◌, Option, none, some, ltb, ◌==◌,
  if◌then◌else◌,
}

abbrev pub minus_one : ℕ
minus_one = 2 ^ 32 - 1

-- `flags & O_NONBLOCK`, `flags | O_NONBLOCK` and `flags & ~O_NONBLOCK`; the flag is 04000.
unfoldable pub has_nonblock : ℕ → Bool
has_nonblock flags = (flags / 2048) % 2 == 1

unfoldable pub with_nonblock : ℕ → ℕ
unfolding has_nonblock
with_nonblock flags = if has_nonblock flags then flags else flags + 2048

unfoldable pub without_nonblock : ℕ → ℕ
unfolding has_nonblock
without_nonblock flags = if has_nonblock flags then flags - 2048 else flags

-- The calls of the C library behind the hooks, on a state `S` of the kernel: `fstat` says whether
-- the descriptor is a socket, and is `none` where it returns -1; the others return a state and an
-- `int`.
pub record Kernel (S : Type 0) : Type 0 where
  pub fstat : ℕ → S → Option Bool
  pub getfl : ℕ → S → ℕ
  pub setfl : ℕ → ℕ → S → S × ℕ
  pub fionbio : ℕ → Bool → S → S × ℕ
  pub socket_fn : S → S × ℕ

-- `_M_flags` of fdContext by its bits.
pub record FdContext : Type 0 where
  pub is_init : Bool
  pub is_socket : Bool
  pub is_close : Bool
  pub sys_non_block : Bool
  pub user_non_block : Bool
  pub recv_timeout : ℕ
  pub send_timeout : ℕ

pub record Process (S : Type 0) : Type 0 where
  pub kernel : S
  pub hook_enable : Bool
  pub datas : ℕ → Option FdContext

abbrev pub blank_context : FdContext
blank_context = record {
  is_init = false;
  is_socket = false;
  is_close = false;
  sys_non_block = false;
  user_non_block = false;
  recv_timeout = 2 ^ 64 - 1;
  send_timeout = 2 ^ 64 - 1;
}

unfoldable pub set_data : ℕ → Option FdContext → (ℕ → Option FdContext) → ℕ → Option FdContext
set_data fd c datas g = if fd == g then c else datas g

module _ {S : Type 0} ⦃k : Kernel S⦄ where
  -- `_M_init`.
  unfoldable pub init_context : ℕ → FdContext → S → FdContext × S
  unfolding has_nonblock with_nonblock
  init_context fd c s = elim (k.fstat fd s) [
    | none ↦ (record c { is_init = false; is_socket = false; sys_non_block = false }, s)
    | some b ↦
        if b
        then (
          record c { is_init = true; is_socket = true; sys_non_block = true },
          if has_nonblock (k.getfl fd s)
              then s
              else (k.setfl fd (with_nonblock (k.getfl fd s)) s).0,
        )
        else (record c { is_init = true; sys_non_block = false }, s)
  ]

  -- `fdman::get`; a negative `fd` has its first bit set.
  unfoldable pub get_context : ℕ → Bool → Process S → Option FdContext × Process S
  unfolding init_context set_data
  get_context fd auto_create p = if ltb (2 ^ 31 - 1) fd then (none, p) else elim (p.datas fd) [
    | some c ↦ (some c, p)
    | none ↦
        let r = init_context fd blank_context p.kernel in
        if not auto_create
        then (none, p)
        else if not (r.0).is_init
        then (none, record p { kernel = r.1 })
        else (some r.0, record p { kernel = r.1; datas = set_data fd (some r.0) p.datas })
  ]

  -- `fdman::del`.
  unfoldable pub delete_context : ℕ → Process S → Process S
  unfolding set_data
  delete_context fd p = record p { datas = set_data fd none p.datas }

  unfoldable pub socket : Process S → Process S × ℕ
  unfolding get_context
  socket p =
      let r = k.socket_fn p.kernel in
      let q = record p { kernel = r.0 } in
      if p.hook_enable && not (r.1 == minus_one)
      then ((get_context r.1 true q).1, r.1)
      else (q, r.1)

  abbrev pub call_setfl : ℕ → ℕ → Process S → Process S × ℕ
  call_setfl fd arg p = let r = k.setfl fd arg p.kernel in (record p { kernel = r.0 }, r.1)

  -- `fcntl(fd, F_SETFL, arg)`.
  unfoldable pub fcntl_setfl : ℕ → ℕ → Process S → Process S × ℕ
  unfolding get_context set_data has_nonblock with_nonblock without_nonblock
  fcntl_setfl fd arg p = elim (get_context fd false p).0 [
    | none ↦ call_setfl fd arg p
    | some c ↦
        if c.is_close || not c.is_socket
        then call_setfl fd arg p
        else call_setfl fd (if c.sys_non_block then with_nonblock arg else without_nonblock arg)
            (record p {
              datas = set_data fd (some (record c { user_non_block = has_nonblock arg })) p.datas;
            })
  ]

  -- `fcntl(fd, F_GETFL)`.
  unfoldable pub fcntl_getfl : ℕ → Process S → ℕ
  unfolding get_context with_nonblock without_nonblock
  fcntl_getfl fd p = elim (get_context fd false p).0 [
    | none ↦ k.getfl fd p.kernel
    | some c ↦
        if c.is_close || not c.is_socket
        then k.getfl fd p.kernel
        else if c.user_non_block
        then with_nonblock (k.getfl fd p.kernel)
        else without_nonblock (k.getfl fd p.kernel)
  ]

  abbrev pub call_fionbio : ℕ → Bool → Process S → Process S × ℕ
  call_fionbio fd b p = let r = k.fionbio fd b p.kernel in (record p { kernel = r.0 }, r.1)

  -- `ioctl(fd, FIONBIO, &arg)`, where `b` says whether `arg` is not 0.
  unfoldable pub ioctl_fionbio : ℕ → Bool → Process S → Process S × ℕ
  unfolding get_context set_data
  ioctl_fionbio fd b p = elim (get_context fd false p).0 [
    | none ↦ call_fionbio fd b p
    | some c ↦
        if c.is_close || not c.is_socket
        then call_fionbio fd b p
        else call_fionbio fd b
            (record p { datas = set_data fd (some (record c { user_non_block = b })) p.datas })
  ]
