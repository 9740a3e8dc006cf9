-- ===== src/Users/Credentials.antt =====
-- Passwords and tokens: the comparison of credentials, and the check of a stored hash.
use byte_hive.Base.{
  ℕ, zero, suc, ◌+◌, ◌*◌, ◌/◌, ◌%◌, Bool, true, false, ◌&&◌, ◌||◌, not, none, some,
}
use byte_hive.Base.{[], ◌∷◌, Text, leb, if◌then◌else◌, ◌==◌, nat_eq, list_eq}
use byte_hive.Base.{length, all, max}
use byte_hive.Base.{All, ◌≡◌, ◌<◌, refl, arith, ◌↔◌}
use byte_hive.Hex.{IsByte}
use byte_hive.Users.{Argon, VerifyError, legacy_hash, invalid_format}

is_hex_digit : ℕ → Bool
is_hex_digit c = leb 48 c && leb c 57 || (leb 97 c && leb c 102 || leb 65 c && leb c 70)

starts_with_dollar : Text → Bool
starts_with_dollar [] = false
starts_with_dollar (c ∷ s) = c == 36

unfoldable pub is_legacy_sha256 : Text → Bool
unfolding is_hex_digit starts_with_dollar
is_legacy_sha256 s = length s == 64 && not (starts_with_dollar s) && all is_hex_digit s

-- `|` and `^` on the low bits, as many as the first argument says.
bit_or : ℕ → ℕ → ℕ → ℕ
bit_or zero x y = 0
bit_or (suc k) x y = max (x % 2) (y % 2) + 2 * bit_or k (x / 2) (y / 2)

bit_xor : ℕ → ℕ → ℕ → ℕ
bit_xor zero x y = 0
bit_xor (suc k) x y = (x % 2 + y % 2) % 2 + 2 * bit_xor k (x / 2) (y / 2)

-- The `fold` over the zipped bytes.
difference : ℕ → Text → Text → ℕ
unfolding bit_or bit_xor
difference acc (x ∷ a) (y ∷ b) = difference (bit_or 8 acc (bit_xor 8 x y)) a b
difference acc _ _ = acc

unfoldable pub constant_eq : Text → Text → Bool
unfolding difference
constant_eq a b = if length a == length b then difference 0 a b == 0 else false

pub data Verified : Type 0 where
  verified : Bool → Verified
  unverified : VerifyError → Verified

unfoldable pub verify_password : Argon → Text → Text → Verified
unfolding is_legacy_sha256
verify_password A stored_hash password =
    if is_legacy_sha256 stored_hash
    then unverified legacy_hash
    else elim (A.check stored_hash password) [
      | none ↦ unverified invalid_format
      | some right ↦ verified right
    ]

-- 2 to the power of the number of bits.
abbrev power : ℕ → ℕ
power zero = 1
power (suc k) = 2 * power k

bit_or_bound : (k x y : ℕ) → bit_or k x y < power k
unfolding bit_or
bit_or_bound zero x y = omega arith
bit_or_bound (suc k) x y = omega (arith, bit_or_bound k (x / 2) (y / 2))

bit_or_zero : (k x y : ℕ) → x < power k → y < power k → (bit_or k x y ≡ 0) ↔ ((x ≡ 0) × (y ≡ 0))
unfolding bit_or
bit_or_zero zero x y h l = (λ _. (omega arith, omega arith), λ _. refl)
bit_or_zero (suc k) x y h l =
    let (to, from) = bit_or_zero k (x / 2) (y / 2) (omega arith) (omega arith) in
    (
      λ e. let (a, b) = to (omega arith) in (omega arith, omega arith),
      λ (a, b). omega (arith, from (omega arith, omega arith)),
    )

bit_xor_bound : (k x y : ℕ) → bit_xor k x y < power k
unfolding bit_xor
bit_xor_bound zero x y = omega arith
bit_xor_bound (suc k) x y = omega (arith, bit_xor_bound k (x / 2) (y / 2))

bit_xor_zero : (k x y : ℕ) → x < power k → y < power k → (bit_xor k x y ≡ 0) ↔ (x ≡ y)
unfolding bit_xor
bit_xor_zero zero x y h l = (λ _. omega arith, λ _. refl)
bit_xor_zero (suc k) x y h l =
    let (to, from) = bit_xor_zero k (x / 2) (y / 2) (omega arith) (omega arith) in
    (
      λ e. let a : x / 2 ≡ y / 2 = to (omega arith) in omega arith,
      λ e. omega (arith, from (rw e refl)),
    )

-- The accumulated difference is zero exactly if it was and the rest is the same.
difference_zero :
    (acc : ℕ) (a b : Text)
    → acc < 256
    → All IsByte a
    → All IsByte b
    → length a ≡ length b
    → (difference acc a b ≡ 0) ↔ ((acc ≡ 0) × (a ≡ b))
unfolding difference
difference_zero acc [] [] h p q l = (λ e. (e, refl), λ e. e.0)
difference_zero acc [] (y ∷ b) h p q l = absurd (omega arith)
difference_zero acc (x ∷ a) [] h p q l = absurd (omega arith)
difference_zero acc (x ∷ a) (y ∷ b) h (px, p) (qy, q) l =
    let d = bit_xor 8 x y in
    let (to, from) =
      difference_zero (bit_or 8 acc d) a b (bit_or_bound 8 acc d) p q (omega arith) in
    let (or_to, or_from) = bit_or_zero 8 acc d h (bit_xor_bound 8 x y) in
    let (xor_to, xor_from) = bit_xor_zero 8 x y px qy in
    (
      λ e. let (o, rest) = to e in let (z, w) = or_to o in let same = xor_to w in (z, cc),
      λ (z, e). from (or_from (z, xor_from (cc)), cc),
    )

-- The comparison without early exit is equality: `constant_eq` of two byte strings is true exactly if
-- they are the same.
pub constant_eq_lem :
    (a b : Text) → All IsByte a → All IsByte b → (constant_eq a b ≡ true) ↔ (a ≡ b)
unfolding constant_eq
constant_eq_lem a b p q = (
  λ e.
      let len : length a ≡ length b = ground arith in
      let zero_left : difference 0 a b ≡ 0 = ground arith in
      ((difference_zero 0 a b (omega arith) p q len).0 zero_left).1,
  λ e.
      let len : length a ≡ length b = rw e refl in
      let zero_left : difference 0 a b ≡ 0 =
        (difference_zero 0 a b (omega arith) p q len).1 (refl, e) in
      ground arith,
)
