-- ===== src/Hex.antt =====
-- `hex` of crates/filesync/src/lib.rs and `parse_hex32` of crates/filesync/src/manifest.rs.
use byte_hive.Base.{ℕ, ◌+◌, ◌-◌, ◌*◌, ◌/◌, ◌%◌, ◌<◌, ◌≡◌, refl, ◌&&◌}
use byte_hive.Base.{Option, none, some, List, [], ◌∷◌, Text, length, All, ltb, leb, arith}
use byte_hive.Base.{if◌then◌else◌, ◌==◌, nat_eq}
use byte_hive.Protocol.{Hash}

-- A digit of `{b:02x}`.
hex_digit : ℕ → ℕ
hex_digit d = if ltb d 10 then 48 + d else 87 + d

unfoldable pub hex : Hash → Text
unfolding hex_digit
hex [] = []
hex (b ∷ bs) = hex_digit (b / 16) ∷ hex_digit (b % 16) ∷ hex bs

-- `to_digit(16)`
to_digit : ℕ → Option ℕ
to_digit c =
    if leb 48 c && leb c 57
    then some (c - 48)
    else if leb 97 c && leb c 102
    then some (c - 87)
    else if leb 65 c && leb c 70
    then some (c - 55)
    else none

abbrev join_digits : Option ℕ → Option ℕ → Option (List ℕ) → Option (List ℕ)
join_digits (some hi) (some lo) (some rest) = some ((hi * 16 + lo) ∷ rest)
join_digits _ _ _ = none

-- The loop over `chunks(2)`; the length is even here.
parse_pairs : Text → Option (List ℕ)
parse_pairs [] = some []
parse_pairs (c ∷ []) = none
parse_pairs (c ∷ d ∷ cs) = join_digits (to_digit c) (to_digit d) (parse_pairs cs)

unfoldable pub parse_hex32 : Text → Option Hash
unfolding parse_pairs to_digit
parse_hex32 s = if length s == 64 then parse_pairs s else none

abbrev pub IsByte : ℕ → Type 0
IsByte b = b < 256

to_digit-hex_digit : (d : ℕ) → d < 16 → to_digit (hex_digit d) ≡ some d
unfolding to_digit hex_digit
to_digit-hex_digit d h = ground arith

length-hex : (h : Hash) → length (hex h) ≡ 2 * length h
unfolding hex
length-hex [] = refl
length-hex (b ∷ bs) = omega (arith, length-hex bs)

byte_split : (b : ℕ) → b / 16 * 16 + b % 16 ≡ b
byte_split b = omega arith

parse_pairs-hex : (h : Hash) → All IsByte h → parse_pairs (hex h) ≡ some h
unfolding parse_pairs hex
parse_pairs-hex [] _ = refl
parse_pairs-hex (b ∷ bs) (small, rest) = ground (
  arith,
  to_digit-hex_digit (b / 16) (omega arith),
  to_digit-hex_digit (b % 16) (omega arith),
  parse_pairs-hex bs rest,
  byte_split b,
)

-- Reading back the hexadecimal text of a hash of 32 bytes gives the hash.
pub parse_hex32-hex : (h : Hash) → length h ≡ 32 → All IsByte h → parse_hex32 (hex h) ≡ some h
unfolding parse_hex32 nat_eq
parse_hex32-hex h len small =
    let e : length (hex h) ≡ 64 = omega (arith, length-hex h) in rw e (parse_pairs-hex h small)
