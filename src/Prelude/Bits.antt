-- ===== src/Prelude/Bits.antt =====
-- `|` of a shifted number and one that fits below it, and `&` of a byte with a low mask.
use Prim.Native.Nat.{ℕ, zero, suc, ◌+◌, ◌*◌, ◌/◌, ◌%◌, ◌^◌, ◌≤◌, ◌<◌, max, digits, bit_and, bit_or}
use Prim.Native.Nat.{bit_or-bitwise}
use mathlib.Core.Path.{◌≡◌, refl, ap, ◌∙◌}
use mathlib.Core.Bool.{Bool, true, ◌&&◌}
use native.Mathlib.Nat.{pow-suc, le_refl}
use native.Mathlib.Omega.{arith}
use dora_foxglove.Prelude.Tests.{◌==◌, ==_iff}

times_two_pow : (t k : ℕ) → t * 2 ^ suc k ≡ 2 * (t * 2 ^ k)
times_two_pow t k = omega (arith, ap (λ (p : ℕ). t * p) (pow-suc 2 k))

-- The digits of `a`, a multiple of `2 ^ k`, and of `v`, below it, never meet.
or_digits : (n k t a v : ℕ) → a ≡ t * 2 ^ k → a ≤ n → v < 2 ^ k → digits (λ b. b) max n a v ≡ a + v
or_digits zero k t a v e h fits = omega arith
or_digits (suc n) k t zero v e h fits = omega arith
or_digits (suc n) zero t (suc a) v e h fits = omega (
  arith,
  or_digits n zero (suc a / 2) (suc a / 2) (v / 2) (omega arith) (omega arith) (omega arith),
)
or_digits (suc n) (suc k) t (suc a) v e h fits = omega (
  arith,
  times_two_pow t k,
  or_digits n k t (suc a / 2) (v / 2) (omega (arith, times_two_pow t k)) (omega arith)
      (omega (arith, pow-suc 2 k)),
)

pub bit_or_shifted : (k t v : ℕ) → v < 2 ^ k → bit_or (t * 2 ^ k) v ≡ t * 2 ^ k + v
bit_or_shifted k t v fits =
    bit_or-bitwise (t * 2 ^ k) v ∙ or_digits (t * 2 ^ k) k t (t * 2 ^ k) v refl (le_refl _) fits

unfoldable pub all_below : ℕ → (ℕ → Bool) → Bool
all_below zero p = true
all_below (suc n) p = p n && all_below n p

pub all_below_sound : (n : ℕ) (p : ℕ → Bool) (x : ℕ) → all_below n p ≡ true → x < n → p x ≡ true
unfolding all_below
all_below_sound zero p x h lt = elim lt [ ]
all_below_sound (suc n) p x h lt = ground (arith, all_below_sound n p x)

-- `f` and `g` agree below 256 if an evaluation says so.
agree_on_bytes :
    (f g : ℕ → ℕ) → all_below 256 (λ x. f x == g x) ≡ true → (x : ℕ) → x < 256 → f x ≡ g x
agree_on_bytes f g h x lt = (==_iff _ _).0 (all_below_sound 256 (λ x. f x == g x) x h lt)

pub bit_and_low2 : (x : ℕ) → x < 256 → bit_and x 0b11 ≡ x % 4
unfolding all_below
bit_and_low2 = agree_on_bytes _ _ refl

pub bit_and_low4 : (x : ℕ) → x < 256 → bit_and x 0b1111 ≡ x % 16
unfolding all_below
bit_and_low4 = agree_on_bytes _ _ refl

pub bit_and_low6 : (x : ℕ) → x < 256 → bit_and x 0b111111 ≡ x % 64
unfolding all_below
bit_and_low6 = agree_on_bytes _ _ refl
