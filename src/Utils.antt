-- ===== src/Utils.antt =====
-- src/utils.h: findAvailablePort and to_hex; the children Queue and Pool have safequeue and threadPool.
pub mod Port
pub mod Hex
pub mod Queue
pub mod Pool
use raft_kvstorage.Common.{
  ℕ, zero, suc, ◌+◌, ◌/◌, ◌%◌, ◌^◌, Bool, true, false, List, [], ◌∷◌, Bytes, ltb, leb,
  if◌then◌else◌,
}

-- The loop of `findAvailablePort`, with the rounds that it may still take: the counter that it
-- leaves. `available` is `availablePort`, which tries to bind a socket, of a 16-bit number.
unfoldable pub count_ports : (ℕ → Bool) → ℕ → ℕ → ℕ → ℕ
count_ports available port zero counter = counter
count_ports available port (suc n) counter =
    let rest = count_ports available port n (counter + 1) in
    if available ((port + counter) % 2 ^ 16) then counter else rest

-- `findAvailablePort`: its result, and the port that its argument holds afterwards.
unfoldable pub find_available_port : (ℕ → Bool) → ℕ → Bool × ℕ
unfolding count_ports
find_available_port available port =
    if leb 30 (count_ports available port 30 0) then (false, port) else (true, port)

unfoldable pub hex_digit : ℕ → ℕ
hex_digit d = if ltb d 10 then 48 + d else 87 + d

-- `to_hex`: two digits for each byte.
unfoldable pub to_hex : Bytes → Bytes
unfolding hex_digit
to_hex [] = []
to_hex (b ∷ bs) = hex_digit (b / 16) ∷ hex_digit (b % 16) ∷ to_hex bs
