-- ===== src/Prelude/Words.antt =====
-- `size_t` arithmetic on a 64-bit platform, and a mask of low bits as a remainder.
use Prim.Native.Nat.{
  ℕ, zero, suc, ◌+◌, ◌-◌, ◌*◌, ◌/◌, ◌%◌, ◌^◌, ◌≤◌, ◌<◌, ◌∣◌, min, bit_and, digits, bit_and-bitwise,
}
use mathlib.Core.Path.{◌≡◌, refl, sym, ap, subst, ◌∙◌}
use native.Mathlib.Nat.{
  pow-suc, one-le-pow, mod-mod_of_dvd, add-zero, add-suc, mul_assoc, mod-add-mod, mod-eq_of_lt,
  mod-eq-sub-mod, dvd-mul_right, pow-le-pow_right,
}
use mathlib.Core.Logic.{◌≢◌}
use native.Mathlib.Decide.{dec_lt}
use native.Mathlib.Omega.{arith}

-- Unsigned addition and subtraction wrap at 2 ^ 64.
abbrev pub add_size : ℕ → ℕ → ℕ
add_size a b = (a + b) % 2 ^ 64

abbrev pub sub_size : ℕ → ℕ → ℕ
sub_size a b = (a + 2 ^ 64 - b) % 2 ^ 64

two-pow-pos : (k : ℕ) → 1 ≤ 2 ^ k
two-pow-pos k = one-le-pow k 2 (omega arith)

-- The lowest binary digit of a remainder by an even number.
mod-double : (x p : ℕ) → 0 < p → x % (2 * p) ≡ x / 2 % p * 2 + x % 2
mod-double x p h = grind arith

pow-double : (k : ℕ) → 2 ^ suc k ≡ 2 * 2 ^ k
pow-double k = omega (arith, pow-suc 2 k)

half_mask : (k : ℕ) → (2 ^ suc k - 1) / 2 ≡ 2 ^ k - 1
half_mask k = omega (arith, pow-double k, two-pow-pos k)

half_mask_low : (k : ℕ) → (2 ^ suc k - 1) % 2 ≡ 1
half_mask_low k = omega (arith, pow-double k, two-pow-pos k)

and_mask_digits : (n k a : ℕ) → a ≤ n → digits (λ _. zero) min n a (2 ^ k - 1) ≡ a % 2 ^ k
and_mask_digits zero k zero h = omega (arith, two-pow-pos k)
and_mask_digits zero k (suc a) h = absurd (omega arith)
and_mask_digits (suc n) k zero h = omega (arith, two-pow-pos k)
and_mask_digits (suc n) zero (suc a) h =
    omega (arith, and_mask_digits n zero (suc a / 2) (omega arith))
and_mask_digits (suc n) (suc k) (suc a) h = omega (
  arith,
  ap (λ (t : ℕ). digits (λ _. zero) min n (suc a / 2) t) (half_mask k),
  half_mask_low k,
  pow-suc 2 k,
  mod-double (suc a) (2 ^ k) (two-pow-pos k),
  ap (λ (t : ℕ). suc a % t) (pow-double k),
  and_mask_digits n k (suc a / 2) (omega arith),
)

-- `x & (2 ^ k - 1)` keeps the k low bits.
pub bit_and-mask : (k x : ℕ) → bit_and x (2 ^ k - 1) ≡ x % 2 ^ k
bit_and-mask k x = bit_and-bitwise x (2 ^ k - 1) ∙ and_mask_digits x k x (omega arith)

two-pow-add : (k j : ℕ) → 2 ^ (k + j) ≡ 2 ^ k * 2 ^ j
two-pow-add k zero = omega (arith, ap (λ (t : ℕ). 2 ^ t) (add-zero k))
two-pow-add k (suc j) =
    rw (add-suc, pow-suc 2 (k + j), two-pow-add k j, pow-suc 2 j, mul_assoc) refl

-- Wrapping at 2 ^ 64 first does not change an index taken modulo a smaller power of two.
pub mod_word : (k x : ℕ) → k ≤ 64 → x % 2 ^ 64 % 2 ^ k ≡ x % 2 ^ k
mod_word k x h =
    mod-mod_of_dvd (2 ^ k) x
      (subst (λ (t : ℕ). 2 ^ k ∣ t) split (dvd-mul_right (2 ^ k) (2 ^ (64 - k))))
  where
    whole : k + (64 - k) ≡ 64
    whole = omega arith

    split : 2 ^ k * 2 ^ (64 - k) ≡ 2 ^ 64
    split = sym (two-pow-add k (64 - k)) ∙ ap (λ (t : ℕ). 2 ^ t) whole

pub two-pow-bounds : (k : ℕ) → k ≤ 63 → (1 ≤ 2 ^ k) × (2 ^ k ≤ 2 ^ 63)
two-pow-bounds k h = (two-pow-pos k, pow-le-pow_right (omega arith) h)

-- The mask `Size - 1`, computed in `size_t`, for a size that is a power of two.
pub bit_and-size : (k x : ℕ) → k ≤ 63 → bit_and x (sub_size (2 ^ k) 1) ≡ x % 2 ^ k
bit_and-size k x h = rw mask (bit_and-mask k x)
  where
    mask : sub_size (2 ^ k) 1 ≡ 2 ^ k - 1
    mask = omega (arith, two-pow-bounds k h)

-- Fewer than `p` steps round a ring of `p` places do not come back to the start.
pub mod-ne : (p h j : ℕ) → 0 < j → j < p → (h + j) % p ≢ h % p
mod-ne p h j pos lt = elim (dec_lt (h % p + j) p) [
  | yes inside ↦ omega (arith, mod-add-mod h p j, mod-eq_of_lt inside)
  | no around ↦ omega (
    arith,
    mod-add-mod h p j,
    mod-eq-sub-mod {n = h % p + j} {m = p} (omega arith),
    mod-eq_of_lt {n = h % p + j - p} {m = p} (omega arith),
  )
]
