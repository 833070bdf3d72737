-- ===== src/Support/Uniform.antt =====
-- src/hif2scSupport/hif_vhdl_ieee_math_real.cpp: `hif_vhdl_uniform`, the generator of the pseudo-random
-- numbers of IEEE.MATH_REAL. The last line scales `z` to a double and is left out: the result is `z`.
pub mod Stream
use hif_backend.Prelude.{ℕ, zero, suc, ◌+◌, ◌/◌, ◌≡◌, refl, Bool, if◌then◌else◌, arith}
use hif_backend.Prelude.Int.{ℤ, pos, negsuc, ◌+ℤ◌, ◌-ℤ◌, ◌*ℤ◌, ltb_ℤ}

-- The quotient of C++ by a positive divisor: it truncates towards zero.
abbrev pub quot : ℤ → ℕ → ℤ
quot (pos n) d = pos (n / d)
quot (negsuc n) d = pos 0 -ℤ pos (suc n / d)

-- One seed's step: `k = s / q; s = a * (s - k * q) - k * r; if (s < 0) s = s + m`.
pub record Steps : Type 0 where
  pub k : ℤ
  pub multiple : ℤ  -- k * q
  pub remainder : ℤ  -- s - k * q
  pub product : ℤ  -- a * (s - k * q)
  pub correction : ℤ  -- k * r
  pub difference : ℤ  -- the new s, before the test
  pub seed : ℤ  -- the new s

unfoldable pub next_seed : ℕ → ℕ → ℕ → ℕ → ℤ → Steps
next_seed a q r m s =
    let k = quot s q in
    let multiple = k *ℤ pos q in
    let remainder = s -ℤ multiple in
    let product = pos a *ℤ remainder in
    let correction = k *ℤ pos r in
    let difference = product -ℤ correction in
    record {
      k = k;
      multiple = multiple;
      remainder = remainder;
      product = product;
      correction = correction;
      difference = difference;
      seed = if ltb_ℤ difference (pos 0) then difference +ℤ pos m else difference;
    }

pub record Draw : Type 0 where
  pub seed1 : ℤ
  pub seed2 : ℤ
  pub z : ℤ

unfoldable pub uniform_step1 : ℤ → Steps
unfolding next_seed
uniform_step1 = next_seed 40014 53668 12211 2147483563

unfoldable pub uniform_step2 : ℤ → Steps
unfolding next_seed
uniform_step2 = next_seed 40692 52774 3791 2147483399

-- `z = seed1 - seed2; if (z < 1) z = z + 2147483562`.
unfoldable pub combine : ℤ → ℤ → ℤ
combine seed1 seed2 = let z = seed1 -ℤ seed2 in if ltb_ℤ z (pos 1) then z +ℤ pos 2147483562 else z

unfoldable pub uniform : ℤ → ℤ → Draw
unfolding uniform_step1 uniform_step2 combine
uniform seed1 seed2 =
    let s1 = (uniform_step1 seed1).seed in
    let s2 = (uniform_step2 seed2).seed in record { seed1 = s1; seed2 = s2; z = combine s1 s2 }

draw_ones : (uniform (pos 1) (pos 1)).z ≡ pos 2147482884
unfolding uniform ◌+ℤ◌ ◌-ℤ◌ ◌*ℤ◌
draw_ones = refl
