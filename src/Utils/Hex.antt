-- ===== src/Utils/Hex.antt =====
-- to_hex loses nothing.
use raft_kvstorage.Common.{ℕ, ◌/◌, ◌%◌, ◌<◌, ◌≡◌, refl, [], ◌∷◌, Bytes, arith}
use raft_kvstorage.Utils.{hex_digit, to_hex}

abbrev pub AllBytes : Bytes → Type 0
AllBytes [] = Unit {0}
AllBytes (b ∷ bs) = (b < 256) × AllBytes bs

hex_digit-injective : (a b : ℕ) → a < 16 → b < 16 → hex_digit a ≡ hex_digit b → a ≡ b
unfolding hex_digit
hex_digit-injective a b h k e = ground arith

byte_halves : (a b : ℕ) → a / 16 ≡ b / 16 → a % 16 ≡ b % 16 → a ≡ b
byte_halves a b p q = omega arith

-- Two strings of bytes with the same hexadecimal digits are the same.
pub to_hex-injective : (s t : Bytes) → AllBytes s → AllBytes t → to_hex s ≡ to_hex t → s ≡ t
unfolding to_hex
to_hex-injective [] [] p q e = refl
to_hex-injective [] (b ∷ bs) p q e = cc
to_hex-injective (a ∷ xs) [] p q e = cc
to_hex-injective (a ∷ xs) (b ∷ ys) p q e = ground (
  arith,
  hex_digit-injective (a / 16) (b / 16) (omega (arith, p.0)) (omega (arith, q.0)),
  hex_digit-injective (a % 16) (b % 16) (omega arith) (omega arith),
  byte_halves a b,
  to_hex-injective xs ys p.1 q.1,
)
