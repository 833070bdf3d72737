-- ===== src/Support/Uniform/Stream.antt =====
-- src/hif2scSupport/hif_vhdl_ieee_math_real.cpp: the seeds and the numbers of a run of calls.
use hif_backend.Prelude.{ℕ, zero, suc, ◌*◌, ◌%◌, ◌<◌, ◌≡◌, refl, List, [], ◌∷◌, All, arith}
use hif_backend.Prelude.Int.{ℤ, pos, negsuc, pos_part, ◌+ℤ◌, ◌-ℤ◌, ◌*ℤ◌, ◌≤ℤ◌}
use hif_backend.Support.Uniform.{Steps, uniform_step1, uniform_step2, combine, uniform}

-- A value that an int32_t holds.
abbrev pub Fits32 : ℤ → Type 0
Fits32 x = (negsuc 2147483647 ≤ℤ x) × (x ≤ℤ pos 2147483647)

-- A seed between 1 and the modulus less one, both included.
abbrev pub IsSeed : ℕ → ℕ → Type 0
IsSeed m s = (0 < s) × (s < m)

-- The range of `z`; `z * 4656613` is the double that the source returns, in units of 10 ^ -16.
abbrev pub InRange : ℤ → Type 0
InRange z = (pos 1 ≤ℤ z) × (z ≤ℤ pos 2147483562) × (pos_part z * 4656613 < 10000000000000000)

step1-residue :
    (s : ℕ) → IsSeed 2147483563 s → (uniform_step1 (pos s)).seed ≡ pos (40014 * s % 2147483563)
unfolding uniform_step1 ◌+ℤ◌ ◌-ℤ◌ ◌*ℤ◌
step1-residue s h = ground arith

step2-residue :
    (s : ℕ) → IsSeed 2147483399 s → (uniform_step2 (pos s)).seed ≡ pos (40692 * s % 2147483399)
unfolding uniform_step2 ◌+ℤ◌ ◌-ℤ◌ ◌*ℤ◌
step2-residue s h = ground arith

residue1-IsSeed : (s : ℕ) → IsSeed 2147483563 s → IsSeed 2147483563 (40014 * s % 2147483563)
residue1-IsSeed s h = omega arith

residue2-IsSeed : (s : ℕ) → IsSeed 2147483399 s → IsSeed 2147483399 (40692 * s % 2147483399)
residue2-IsSeed s h = omega arith

combine-InRange :
    (s t : ℕ) → IsSeed 2147483563 s → IsSeed 2147483399 t → InRange (combine (pos s) (pos t))
unfolding combine ◌+ℤ◌ ◌-ℤ◌
combine-InRange s t h k = ground arith

-- From seeds in range, one call multiplies each seed by its factor modulo its prime, leaves seeds
-- in range again, and yields a `z` between 1 and 2147483562, whose scaled value lies below 1.
uniform_residues :
    (s t : ℕ)
    → IsSeed 2147483563 s
    → IsSeed 2147483399 t
    → let d = uniform (pos s) (pos t) in
      (d.seed1 ≡ pos (40014 * s % 2147483563))
      × (d.seed2 ≡ pos (40692 * t % 2147483399))
      × IsSeed 2147483563 (pos_part d.seed1)
      × IsSeed 2147483399 (pos_part d.seed2)
      × InRange d.z
unfolding uniform
uniform_residues s t h k =
    rw (step1-residue s h, step2-residue t k)
      (
        refl,
        refl,
        residue1-IsSeed s h,
        residue2-IsSeed t k,
        combine-InRange _ _ (residue1-IsSeed s h) (residue2-IsSeed t k),
      )

abbrev pub FitAll : Steps → Type 0
FitAll c =
    Fits32 c.k
    × Fits32 c.multiple
    × Fits32 c.remainder
    × Fits32 c.product
    × Fits32 c.correction
    × Fits32 c.difference
    × Fits32 c.seed

step1-FitAll : (s : ℕ) → IsSeed 2147483563 s → FitAll (uniform_step1 (pos s))
unfolding uniform_step1 ◌+ℤ◌ ◌-ℤ◌ ◌*ℤ◌
step1-FitAll s h = ground arith

step2-FitAll : (s : ℕ) → IsSeed 2147483399 s → FitAll (uniform_step2 (pos s))
unfolding uniform_step2 ◌+ℤ◌ ◌-ℤ◌ ◌*ℤ◌
step2-FitAll s h = ground arith

-- From seeds in range every value that a call computes in an int32_t fits one.
pub uniform_fits :
    (s t : ℕ)
    → IsSeed 2147483563 s
    → IsSeed 2147483399 t
    → FitAll (uniform_step1 (pos s))
      × FitAll (uniform_step2 (pos t))
      × Fits32 ((uniform (pos s) (pos t)).seed1 -ℤ (uniform (pos s) (pos t)).seed2)
      × Fits32 (uniform (pos s) (pos t)).z
unfolding ◌-ℤ◌
uniform_fits s t h k =
    let (e1, e2, h', k', r) = uniform_residues s t h k in
    (
      step1-FitAll s h,
      step2-FitAll t k,
      rw (e1, e2) (ground (arith, residue1-IsSeed s h, residue2-IsSeed t k)),
      omega (arith, r),
    )

-- The values of `z` of `n` calls in a row.
pub draws : ℕ → ℤ → ℤ → List ℤ
draws zero s t = []
draws (suc n) s t = let d = uniform s t in d.z ∷ draws n d.seed1 d.seed2

-- From seeds in range, however many numbers are drawn in a row, each `z` lies between 1 and
-- 2147483562.
pub draws-InRange :
    (n s t : ℕ) → IsSeed 2147483563 s → IsSeed 2147483399 t → All InRange (draws n (pos s) (pos t))
unfolding draws
draws-InRange zero s t h k = tt
draws-InRange (suc n) s t h k =
    let (e1, e2, h', k', r) = uniform_residues s t h k in
    (r, rw (e1, e2) (draws-InRange n _ _ (rw e1 at h') (rw e2 at k')))
