-- ===== src/Prelude/Int64.antt =====
-- Go's int64: an integer between -2^63 and 2^63 - 1, with arithmetic that wraps around.
use Prim.Native.Nat.{ℕ, ◌*◌, ◌+◌, ◌-◌, ◌%◌, ◌^◌, ◌≤◌, ◌<◌}
use mathlib.Core.Path.{◌≡◌, refl, ◌∙◌}
use native.Mathlib.Omega.{arith}
use metery.Prelude.Tests.{ltb, if◌then◌else◌}
use metery.Prelude.Int.{
  ℤ, pos, negsuc, pos_part, neg_part, ◌+ℤ◌, ◌-ℤ◌, ◌*ℤ◌, ◌≤ℤ◌, int_laws, *ℤ-pos_parts, *ℤ-minus,
  minus_parts, zero-*ℤ,
}

-- The bit pattern of an integer, and the integer that a bit pattern stands for.
unsigned64 : ℤ → ℕ
unsigned64 z = (pos_part z + (2 ^ 64 - neg_part z % 2 ^ 64)) % 2 ^ 64

signed64 : ℕ → ℤ
signed64 n = if ltb n (2 ^ 63) then pos n else negsuc (2 ^ 64 - 1 - n)

unfoldable pub wrap64 : ℤ → ℤ
unfolding unsigned64 signed64
wrap64 z = signed64 (unsigned64 z)

unfoldable pub add64 : ℤ → ℤ → ℤ
add64 a b = wrap64 (a +ℤ b)

unfoldable pub sub64 : ℤ → ℤ → ℤ
sub64 a b = wrap64 (a -ℤ b)

unfoldable pub mul64 : ℤ → ℤ → ℤ
mul64 a b = wrap64 (a *ℤ b)

-- No wrap-around.
abbrev pub Fits64 : ℤ → Type 0
Fits64 z = (pos_part z < 2 ^ 63) × (neg_part z ≤ 2 ^ 63)

pub wrap64_fits : (z : ℤ) → Fits64 z → wrap64 z ≡ z
unfolding wrap64
wrap64_fits (pos n) h = ground arith
wrap64_fits (negsuc n) h = ground arith

-- A count of credits or of usage units: neither negative nor out of int64's range.
abbrev pub IsAmount : ℤ → Type 0
IsAmount z = (neg_part z ≡ 0) × (pos_part z < 2 ^ 63)

pub sub64_amounts :
    (a b : ℤ) → IsAmount a → IsAmount b → b ≤ℤ a → sub64 a b ≡ pos (pos_part a - pos_part b)
unfolding sub64
sub64_amounts a b ha hb h =
    let e : a -ℤ b ≡ pos (pos_part a - pos_part b) = omega int_laws in
    rw e (wrap64_fits _ (omega arith))

pub add64_amounts :
    (a b : ℤ)
    → IsAmount a
    → IsAmount b
    → pos_part a + pos_part b < 2 ^ 63
    → add64 a b ≡ pos (pos_part a + pos_part b)
unfolding add64
add64_amounts a b ha hb h =
    let e : a +ℤ b ≡ pos (pos_part a + pos_part b) = omega int_laws in
    rw e (wrap64_fits _ (omega arith))

pub add64_pos : (m n : ℕ) → m + n < 2 ^ 63 → add64 (pos m) (pos n) ≡ pos (m + n)
add64_pos m n h = add64_amounts (pos m) (pos n) (omega arith) (omega arith) h

pub mul64_pos : (m n : ℕ) → m * n < 2 ^ 63 → mul64 (pos m) (pos n) ≡ pos (m * n)
unfolding mul64
mul64_pos m n h =
    let e : pos m *ℤ pos n ≡ pos (m * n) = omega (int_laws, *ℤ-pos_parts (pos m) n) in
    rw e (wrap64_fits _ (omega arith))

-- A product with -1.
pub mul64_minus : (n : ℕ) → n < 2 ^ 63 → mul64 (pos n) (negsuc 0) ≡ pos 0 -ℤ pos n
unfolding mul64
mul64_minus n h =
    let e : pos n *ℤ negsuc 0 ≡ pos 0 -ℤ pos n = *ℤ-minus n in rw e (wrap64_fits _ (minus_fits n h))
  where
    minus_fits : (n : ℕ) → n < 2 ^ 63 → Fits64 (pos 0 -ℤ pos n)
    minus_fits n h = omega (arith, minus_parts n)

pub add64_minus :
    (m n : ℕ) → m + n < 2 ^ 63 → add64 (pos 0 -ℤ pos m) (pos 0 -ℤ pos n) ≡ pos 0 -ℤ pos (m + n)
unfolding add64
add64_minus m n h =
    let e : pos 0 -ℤ pos m +ℤ (pos 0 -ℤ pos n) ≡ pos 0 -ℤ pos (m + n) = omega int_laws in
    rw e (wrap64_fits _ (omega (arith, minus_parts (m + n))))

pub sub64_zero : (n : ℕ) → n < 2 ^ 63 → sub64 (pos 0) (pos n) ≡ pos 0 -ℤ pos n
unfolding sub64
sub64_zero n h = wrap64_fits _ (omega (arith, minus_parts n))

pub mul64_one : (n : ℕ) → n < 2 ^ 63 → mul64 (pos n) (pos 1) ≡ pos n
mul64_one n h = mul64_pos n 1 (omega arith) ∙ omega int_laws

pub mul64_sign : mul64 (pos 1) (negsuc 0) ≡ negsuc 0
unfolding mul64 wrap64 ◌*ℤ◌
mul64_sign = refl

pub mul64_zero : (z : ℤ) → mul64 (pos 0) z ≡ pos 0
unfolding mul64
mul64_zero z = let e : pos 0 *ℤ z ≡ pos 0 = zero-*ℤ z in rw e (wrap64_fits (pos 0) (omega arith))
