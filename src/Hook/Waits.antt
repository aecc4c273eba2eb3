-- ===== src/Hook/Waits.antt =====
-- When the waiting calls come back, and with what.
use raft_kvstorage.Common.{
  ℕ, ◌+◌, ◌*◌, ◌/◌, ◌%◌, ◌^◌, ◌<◌, ◌≡◌, ◌≢◌, refl, sym, ap, ◌∙◌, Bool, true, false, List, [], ◌∷◌,
  ◌++◌, some, if◌then◌else◌, arith,
}
use raft_kvstorage.Hook.{Kernel, FdContext, Process, set_data}
use raft_kvstorage.Hook.Flags.{IsHooked, get_context-listed}
use raft_kvstorage.Hook.Io.{
  eintr, eagain, etimedout, no_timeout, Answer, returned, failed, Wait, refused, woken, timed_out,
  TimeoutType, recv, send, timeout_of, with_timeout, retry, do_io, set_timeout,
}

-- The attempts before the last: `true` found nothing to read or no room to write, `false` was
-- interrupted by a signal.
abbrev pub busy : List Bool → List Answer
busy [] = []
busy (b ∷ bs) = failed (if b then eagain else eintr) ∷ busy bs

-- One wait that ends with the event for each attempt that found nothing.
abbrev pub wakes : List Bool → List Wait
wakes [] = []
wakes (true ∷ bs) = woken ∷ wakes bs
wakes (false ∷ bs) = wakes bs

retry-interrupted :
    (timeout : ℕ) (answers : List Answer) (waits : List Wait)
    → retry timeout (failed eintr ∷ answers) waits ≡ retry timeout answers waits
unfolding retry
retry-interrupted timeout answers [] = refl
retry-interrupted timeout answers (refused r ∷ waits) = refl
retry-interrupted timeout answers (woken ∷ waits) = refl
retry-interrupted timeout answers (timed_out ∷ waits) = refl

retry-busy :
    (timeout : ℕ) (bs : List Bool) (answers : List Answer) (waits : List Wait)
    → retry timeout (busy bs ++ answers) (wakes bs ++ waits) ≡ retry timeout answers waits
unfolding retry
retry-busy timeout [] answers waits = refl
retry-busy timeout (true ∷ bs) answers waits = retry-busy timeout bs answers waits
retry-busy timeout (false ∷ bs) answers waits =
    retry-interrupted timeout (busy bs ++ answers) (wakes bs ++ waits)
    ∙ retry-busy timeout bs answers waits

-- An answer that ends the call.
abbrev pub IsLast : Answer → Type 0
IsLast (returned n) = Unit {0}
IsLast (failed e) = (e ≢ eintr) × (e ≢ eagain)

retry-last :
    (timeout : ℕ) (a : Answer) (answers : List Answer) (waits : List Wait)
    → IsLast a
    → retry timeout (a ∷ answers) waits ≡ some a
unfolding retry
retry-last timeout (returned n) answers waits last = refl
retry-last timeout (failed e) answers [] last = ground (arith, last.0, last.1)
retry-last timeout (failed e) answers (refused r ∷ waits) last = ground (arith, last.0, last.1)
retry-last timeout (failed e) answers (woken ∷ waits) last = ground (arith, last.0, last.1)
retry-last timeout (failed e) answers (timed_out ∷ waits) last = ground (arith, last.0, last.1)

retry-timed_out :
    (timeout : ℕ) (answers : List Answer) (waits : List Wait)
    → timeout ≢ no_timeout
    → retry timeout (failed eagain ∷ answers) (timed_out ∷ waits) ≡ some (failed etimedout)
unfolding retry
retry-timed_out timeout answers waits ne = ground arith

told-user :
    (type : TimeoutType) (t : ℕ) (c : FdContext)
    → ((with_timeout type t c).user_non_block ≡ c.user_non_block)
      × (timeout_of type (with_timeout type t c) ≡ t)
told-user recv t c = (refl, refl)
told-user send t c = (refl, refl)

module _ {S : Type 0} ⦃k : Kernel S⦄ where
  do_io-retry :
      (fd : ℕ) (type : TimeoutType) (answers : List Answer) (waits : List Wait) (p : Process S)
      (c : FdContext)
      → IsHooked k p fd c
      → p.hook_enable ≡ true
      → c.user_non_block ≡ false
      → do_io fd type answers waits p ≡ retry (timeout_of type c) answers waits
  unfolding do_io
  do_io-retry fd type answers waits p c h on blocking =
      ground (arith, get_context-listed fd false p c h, h.is_socket, h.not_closed, on, blocking)

  -- With the hooks on, a blocking call on a hooked socket returns the first answer of the kernel that is neither an
  -- interruption nor `try again`, where each `try again` before it is followed by the event.
  pub do_io_lem :
      (fd : ℕ) (type : TimeoutType) (bs : List Bool) (a : Answer) (later : List Answer)
      (waits : List Wait) (p : Process S) (c : FdContext)
      → IsHooked k p fd c
      → p.hook_enable ≡ true
      → c.user_non_block ≡ false
      → IsLast a
      → do_io fd type (busy bs ++ a ∷ later) (wakes bs ++ waits) p ≡ some a
  do_io_lem fd type bs a later waits p c h on blocking last =
      do_io-retry fd type (busy bs ++ a ∷ later) (wakes bs ++ waits) p c h on blocking
      ∙ retry-busy (timeout_of type c) bs (a ∷ later) waits
      ∙ retry-last (timeout_of type c) a later waits last

  do_io-timed_out :
      (fd : ℕ) (type : TimeoutType) (bs : List Bool) (later : List Answer) (waits : List Wait)
      (p : Process S) (c : FdContext)
      → IsHooked k p fd c
      → p.hook_enable ≡ true
      → c.user_non_block ≡ false
      → timeout_of type c ≢ no_timeout
      → do_io fd type (busy bs ++ failed eagain ∷ later) (wakes bs ++ timed_out ∷ waits) p
        ≡ some (failed etimedout)
  do_io-timed_out fd type bs later waits p c h on blocking ne =
      do_io-retry fd type (busy bs ++ failed eagain ∷ later) (wakes bs ++ timed_out ∷ waits) p c h
        on blocking
      ∙ retry-busy (timeout_of type c) bs (failed eagain ∷ later) (timed_out ∷ waits)
      ∙ retry-timed_out (timeout_of type c) later waits ne

  abbrev told : ℕ → TimeoutType → ℕ → FdContext → Process S → Process S
  told fd type t c p = record p { datas = set_data fd (some (with_timeout type t c)) p.datas }

  set_timeout-told :
      (fd : ℕ) (type : TimeoutType) (sec usec : ℕ) (p : Process S) (c : FdContext)
      → IsHooked k p fd c
      → p.hook_enable ≡ true
      → set_timeout fd type sec usec p ≡ told fd type ((sec * 1000 + usec / 1000) % 2 ^ 64) c p
  unfolding set_timeout
  set_timeout-told fd type sec usec p c h on = ground (arith, get_context-listed fd false p c h, on)

  told-IsHooked :
      (fd : ℕ) (type : TimeoutType) (t : ℕ) (p : Process S) (c : FdContext)
      → IsHooked k p fd c
      → IsHooked k (told fd type t c p) fd (with_timeout type t c)
  unfolding set_data
  told-IsHooked fd recv t p c h = record {
    is_fd = h.is_fd;
    listed = ground arith;
    is_socket = h.is_socket;
    not_closed = h.not_closed;
    hidden = h.hidden;
    in_kernel = h.in_kernel;
    non_block = h.non_block;
  }
  told-IsHooked fd send t p c h = record {
    is_fd = h.is_fd;
    listed = ground arith;
    is_socket = h.is_socket;
    not_closed = h.not_closed;
    hidden = h.hidden;
    in_kernel = h.in_kernel;
    non_block = h.non_block;
  }

  -- With the hooks on, and a time-out from `setsockopt` that is less than 2 ^ 64 - 1 milliseconds, 0
  -- too, a blocking call on a hooked socket whose timer comes first fails with ETIMEDOUT.
  pub do_io-set_timeout :
      (fd : ℕ) (type : TimeoutType) (sec usec : ℕ) (bs : List Bool) (later : List Answer)
      (waits : List Wait) (p : Process S) (c : FdContext)
      → IsHooked k p fd c
      → p.hook_enable ≡ true
      → c.user_non_block ≡ false
      → sec * 1000 + usec / 1000 < no_timeout
      → do_io fd type
          (busy bs ++ failed eagain ∷ later)
          (wakes bs ++ timed_out ∷ waits)
          (set_timeout fd type sec usec p)
        ≡ some (failed etimedout)
  do_io-set_timeout fd type sec usec bs later waits p c h on blocking small =
      let t = (sec * 1000 + usec / 1000) % 2 ^ 64 in
      let (user, time) = told-user type t c in
      ap (do_io fd type (busy bs ++ failed eagain ∷ later) (wakes bs ++ timed_out ∷ waits))
        (set_timeout-told fd type sec usec p c h on)
      ∙ do_io-timed_out fd type bs later waits (told fd type t c p) (with_timeout type t c)
          (told-IsHooked fd type t p c h) on (user ∙ blocking)
          (λ e. omega (arith, small, sym time ∙ e))
