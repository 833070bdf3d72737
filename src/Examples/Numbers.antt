-- ===== src/Examples/Numbers.antt =====
-- The arithmetic of hif2scSupport.
use hif_backend.Prelude.{◌≡◌, refl, none, some, arith, All}
use hif_backend.Prelude.Int.{ℤ, pos, negsuc, ◌-ℤ◌}
use hif_backend.Support.Uniform.{uniform, uniform_step1, uniform_step2}
use hif_backend.Support.Uniform.Stream.{InRange, FitAll, Fits32, draws, uniform_fits, draws-InRange}
use hif_backend.Support.Modulo.{hif_mod, Between, Congruent, hif_mod-Congruent}

uniform_fits_example :
    FitAll (uniform_step1 (pos 2147483562))
    × FitAll (uniform_step2 (pos 1))
    × Fits32 ((uniform (pos 2147483562) (pos 1)).seed1 -ℤ (uniform (pos 2147483562) (pos 1)).seed2)
    × Fits32 (uniform (pos 2147483562) (pos 1)).z
uniform_fits_example = uniform_fits 2147483562 1 (omega arith) (omega arith)

draws-InRange_example : All InRange (draws 5 (pos 1) (pos 1))
draws-InRange_example = draws-InRange 5 1 1 (omega arith) (omega arith)

hif_mod-Congruent_example :
    (r : ℤ) × (hif_mod (negsuc 6) (pos 5) ≡ some r)
    × Between (pos 5) r
    × Congruent (pos 5) (negsuc 6) r
hif_mod-Congruent_example =
    hif_mod-Congruent (negsuc 6) (pos 5) (omega arith) (omega arith) (λ e. cc)

-- The negation of the least dividend overflows.
least_overflows : hif_mod (negsuc 0x7fffffffffffffff) (pos 3) ≡ none
unfolding hif_mod
least_overflows = refl
