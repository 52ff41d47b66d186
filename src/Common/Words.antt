-- ===== src/Common/Words.antt =====
-- Exclusive or of machine words, one binary digit at a time. The native operation stands for a
-- recursion on digits with fuel; here the fuel is dropped, and its low bits are found.
use Prim.Native.Nat.{
  ℕ, zero, suc, ◌+◌, ◌*◌, ◌/◌, ◌%◌, ◌≤◌, bit_xor, bit_xor-bitwise, digits, bitwise, differ,
}
use mathlib.Core.Path.{◌≡◌, refl, ◌∙◌, sym}
use native.Mathlib.Omega.{arith}

abbrev xor_digits : ℕ → ℕ → ℕ → ℕ
xor_digits n a b = digits (λ b. b) differ n a b

-- Any fuel that covers the first argument gives the same digits.
xor_digits_fuel : (n m a b : ℕ) → a ≤ n → a ≤ m → xor_digits n a b ≡ xor_digits m a b
xor_digits_fuel zero zero a b p q = refl
xor_digits_fuel zero (suc m) zero b p q = refl
xor_digits_fuel zero (suc m) (suc a) b p q = absurd (omega arith)
xor_digits_fuel (suc n) zero zero b p q = refl
xor_digits_fuel (suc n) zero (suc a) b p q = absurd (omega arith)
xor_digits_fuel (suc n) (suc m) zero b p q = refl
xor_digits_fuel (suc n) (suc m) (suc a) b p q =
    rw (xor_digits_fuel n m (suc a / 2) (b / 2) (omega arith) (omega arith))

xor_digits-suc :
    (a b : ℕ)
    → bitwise (λ y. y) differ (suc a) b
      ≡ bitwise (λ y. y) differ (suc a / 2) (b / 2) * 2 + differ (suc a % 2) (b % 2)
xor_digits-suc a b =
    omega (arith, xor_digits_fuel a (suc a / 2) (suc a / 2) (b / 2) (omega arith) (omega arith))

bit_xor_step : (a b : ℕ) → bit_xor a b ≡ bit_xor (a / 2) (b / 2) * 2 + differ (a % 2) (b % 2)
bit_xor_step zero b = simp bit_xor-bitwise (omega arith)
bit_xor_step (suc a) b = simp bit_xor-bitwise (xor_digits-suc a b)

differ-le_one : (a b : ℕ) → a ≤ 1 → b ≤ 1 → differ a b ≤ 1
differ-le_one zero b p q = q
differ-le_one (suc a) zero p q = p
differ-le_one (suc a) (suc b) p q = differ-le_one a b (omega arith) (omega arith)

-- The number that the lowest k digits stand for.
low : ℕ → ℕ → ℕ
low zero x = 0
low (suc k) x = x % 2 + 2 * low k (x / 2)

low_ten : (x : ℕ) → low 10 x ≡ x % 1024
unfolding low
low_ten x = omega arith

low-bit_xor :
    (k a a' b b' : ℕ)
    → low k a ≡ low k a'
    → low k b ≡ low k b'
    → low k (bit_xor a b) ≡ low k (bit_xor a' b')
unfolding low
low-bit_xor zero a a' b b' p q = refl
low-bit_xor (suc k) a a' b b' p q =
    let da : a % 2 ≡ a' % 2 = omega arith in
    let db : b % 2 ≡ b' % 2 = omega arith in
    let small = differ-le_one (a % 2) (b % 2) (omega arith) (omega arith) in
    let digit : differ (a % 2) (b % 2) ≡ differ (a' % 2) (b' % 2) = rw (da, db) in
    let x = bit_xor_step a b in
    let y = bit_xor_step a' b' in
    let ih = low-bit_xor k (a / 2) (a' / 2) (b / 2) (b' / 2) (omega arith) (omega arith) in
    let hx : bit_xor a b / 2 ≡ bit_xor (a / 2) (b / 2) = omega arith in
    let hy : bit_xor a' b' / 2 ≡ bit_xor (a' / 2) (b' / 2) = omega arith in
    rw (hx, hy) (omega arith)

-- The lowest ten bits of an exclusive or depend on the lowest ten bits of its arguments only.
pub bit_xor-mod :
    (a a' b b' : ℕ)
    → a % 1024 ≡ a' % 1024
    → b % 1024 ≡ b' % 1024
    → bit_xor a b % 1024 ≡ bit_xor a' b' % 1024
bit_xor-mod a a' b b' p q =
    sym (low_ten (bit_xor a b))
    ∙ low-bit_xor 10 a a' b b' (low_ten a ∙ p ∙ sym (low_ten a')) (low_ten b ∙ q ∙ sym (low_ten b'))
    ∙ low_ten (bit_xor a' b')
