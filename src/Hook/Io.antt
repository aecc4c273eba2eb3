-- ===== src/Hook/Io.antt =====
-- The waiting calls of src/cort/hook.cpp: do_io, which stands behind read, write and their kin, and
-- connect_with_timeout. What the kernel's call answers and how a wait ends comes from outside.
use raft_kvstorage.Common.{
  ℕ, ◌+◌, ◌-◌, ◌*◌, ◌/◌, ◌^◌, ◌%◌, true, false, not, ◌||◌, List, [], ◌∷◌, Option, none, some, ◌==◌,
  if◌then◌else◌,
}
use raft_kvstorage.Hook.{Kernel, FdContext, Process, get_context, set_data}

abbrev pub eintr : ℕ
eintr = 4

abbrev pub ebadf : ℕ
ebadf = 9

abbrev pub eagain : ℕ
eagain = 11

abbrev pub etimedout : ℕ
etimedout = 110

abbrev pub einprogress : ℕ
einprogress = 115

abbrev pub no_timeout : ℕ
no_timeout = 2 ^ 64 - 1

-- What a call returns: `failed e` is -1 with `errno` at `e`.
pub data Answer : Type 0 where
  returned : ℕ → Answer
  failed : ℕ → Answer

-- How a wait ends: the manager does not take the event, with `errno` at `e`; the event comes; or the
-- timer of the call comes first.
pub data Wait : Type 0 where
  refused : ℕ → Wait
  woken : Wait
  timed_out : Wait

-- `fdContext::timeoutType`.
pub data TimeoutType : Type 0 where
  recv : TimeoutType
  send : TimeoutType

abbrev pub timeout_of : TimeoutType → FdContext → ℕ
timeout_of recv c = c.recv_timeout
timeout_of send c = c.send_timeout

abbrev pub with_timeout : TimeoutType → ℕ → FdContext → FdContext
with_timeout recv t c = record c { recv_timeout = t }
with_timeout send t c = record c { send_timeout = t }

-- The loop from `retry` on; `none` says that the call waits after the last answer or wait. A timer
-- that is not there does not come first.
unfoldable pub retry : ℕ → List Answer → List Wait → Option Answer
retry timeout [] waits = none
retry timeout (returned n ∷ answers) waits = some (returned n)
retry timeout (failed e ∷ answers) [] =
    let again = retry timeout answers [] in
    if e == eintr then again else if e == eagain then none else some (failed e)
retry timeout (failed e ∷ answers) (refused r ∷ waits) =
    let again = retry timeout answers (refused r ∷ waits) in
    if e == eintr then again else if e == eagain then some (failed r) else some (failed e)
retry timeout (failed e ∷ answers) (woken ∷ waits) =
    let again = retry timeout answers (woken ∷ waits) in
    let rest = retry timeout answers waits in
    if e == eintr then again else if e == eagain then rest else some (failed e)
retry timeout (failed e ∷ answers) (timed_out ∷ waits) =
    let again = retry timeout answers (timed_out ∷ waits) in
    let rest = retry timeout answers waits in
    if e == eintr
    then again
    else if e == eagain
    then (if timeout == no_timeout then rest else some (failed etimedout))
    else some (failed e)

-- The kernel's call without the hook.
abbrev pub plain_call : List Answer → Option Answer
plain_call [] = none
plain_call (a ∷ answers) = some a

abbrev pub so_error_answer : Answer → Answer
so_error_answer (failed e) = failed e
so_error_answer (returned e) = if e == 0 then returned 0 else failed e

-- The end of `connect_with_timeout`, from the test of what `connect` answered.
abbrev pub connecting : ℕ → Wait → Answer → Answer → Answer
connecting timeout wait so_error (returned n) = returned n
connecting timeout (refused r) so_error (failed e) =
    if e == einprogress then so_error_answer so_error else failed e
connecting timeout woken so_error (failed e) =
    if e == einprogress then so_error_answer so_error else failed e
connecting timeout timed_out so_error (failed e) =
    if e == einprogress
    then (if timeout == no_timeout then so_error_answer so_error else failed etimedout)
    else failed e

module _ {S : Type 0} ⦃k : Kernel S⦄ where
  unfoldable pub do_io : ℕ → TimeoutType → List Answer → List Wait → Process S → Option Answer
  unfolding get_context retry
  do_io fd type answers waits p =
      if not p.hook_enable then plain_call answers else elim (get_context fd false p).0 [
        | none ↦ plain_call answers
        | some c ↦
            if c.is_close
            then some (failed ebadf)
            else if not c.is_socket || c.user_non_block
            then plain_call answers
            else retry (timeout_of type c) answers waits
      ]

  -- `setsockopt` for SO_RCVTIMEO and SO_SNDTIMEO, before it calls the kernel's.
  unfoldable pub set_timeout : ℕ → TimeoutType → ℕ → ℕ → Process S → Process S
  unfolding get_context set_data
  set_timeout fd type sec usec p =
      if not p.hook_enable then p else elim (get_context fd false p).0 [
        | none ↦ p
        | some c ↦ record p {
          datas =
              set_data fd (some (with_timeout type ((sec * 1000 + usec / 1000) % 2 ^ 64) c))
                p.datas;
        }
      ]

  -- `connect_with_timeout`; `so_error` is what `getsockopt` returns, or the error that it reads.
  unfoldable pub connect_with_timeout : ℕ → ℕ → Answer → Wait → Answer → Process S → Answer
  unfolding get_context
  connect_with_timeout fd timeout answer wait so_error p =
      if not p.hook_enable then answer else elim (get_context fd false p).0 [
        | none ↦ failed ebadf
        | some c ↦
            if c.is_close
            then failed ebadf
            else if not c.is_socket || c.user_non_block
            then answer
            else connecting timeout wait so_error answer
      ]

  -- `accept`: a new descriptor gets a context.
  unfoldable pub accept : ℕ → List Answer → List Wait → Process S → Option Answer × Process S
  unfolding do_io get_context
  accept fd answers waits p = elim (do_io fd recv answers waits p) [
    | none ↦ (none, p)
    | some (failed e) ↦ (some (failed e), p)
    | some (returned g) ↦ (some (returned g), (get_context g true p).1)
  ]
