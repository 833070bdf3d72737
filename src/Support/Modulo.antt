-- ===== src/Support/Modulo.antt =====
-- src/hif2scSupport/hif_systemc_extensions.cpp: `hif_mod`, the VHDL operator mod.
use native.Mathlib.Nat.{
  mod-lt, mod-add-mod, mod-mod, zero-mod, add-zero, zero-add, add_comm, div-add-mod, mul-mod_right,
}
use hif_backend.Prelude.{
  ℕ, zero, suc, ◌+◌, ◌-◌, ◌/◌, ◌%◌, ◌<◌, ◌≡◌, ◌≢◌, refl, true, false, ap, sym, ◌∙◌, Bool, ◌&&◌, not,
  if◌then◌else◌, arith, Option, none, some, ◌>>=◌, ◌==◌, ltb,
}
use hif_backend.Prelude.Int.{ℤ, pos, negsuc, pos_part, neg_part, ◌+ℤ◌, ◌-ℤ◌}

abbrev pub magnitude : ℤ → ℕ
magnitude (pos n) = n
magnitude (negsuc n) = suc n

-- The unary minus of C++.
abbrev neg : ℤ → ℤ
neg (pos zero) = pos 0
neg (pos (suc n)) = negsuc n
neg (negsuc n) = pos (suc n)

-- The operator % of C++: the sign of its result is that of the dividend.
abbrev rem : ℤ → ℤ → ℤ
rem (pos a) n = pos (a % magnitude n)
rem (negsuc a) n = neg (pos (suc a % magnitude n))

abbrev is_neg : ℤ → Bool
is_neg (pos n) = false
is_neg (negsuc n) = true

-- The result on integers without bounds.
unfoldable mod_value : ℤ → ℤ → ℤ
mod_value a n =
    if not (is_neg a) && not (is_neg n)
    then rem a n
    else if is_neg a && is_neg n
    then neg (rem (neg a) (neg n))
    else if is_neg a && not (is_neg n)
    then rem (n -ℤ rem (neg a) n) n
    else rem (rem a (neg n) +ℤ n) n

-- A result that a long long int does not hold is `none`: C++ leaves it undefined.
abbrev pub long_limit : ℕ
long_limit = 0x8000000000000000

abbrev fits : ℤ → Bool
fits (pos n) = ltb n long_limit
fits (negsuc n) = ltb n long_limit

abbrev pub checked : ℤ → Option ℤ
checked z = if fits z then some z else none

-- A quotient by 0, or of the least number by -1, is undefined as well.
abbrev pub rem_of : ℤ → ℤ → Option ℤ
rem_of a (pos zero) = none
rem_of a (pos (suc m)) = some (rem a (pos (suc m)))
rem_of a (negsuc m) =
    if is_neg a && magnitude a == long_limit && m == 0 then none else some (rem a (negsuc m))

abbrev pub both_negative : ℤ → ℤ → Option ℤ
both_negative a n = do b ← checked (neg a); m ← checked (neg n); r ← rem_of b m; checked (neg r)

abbrev pub negative_dividend : ℤ → ℤ → Option ℤ
negative_dividend a n = do b ← checked (neg a); r ← rem_of b n; d ← checked (n -ℤ r); rem_of d n

abbrev pub negative_divisor : ℤ → ℤ → Option ℤ
negative_divisor a n = do m ← checked (neg n); r ← rem_of a m; d ← checked (r +ℤ n); rem_of d n

unfoldable pub hif_mod : ℤ → ℤ → Option ℤ
hif_mod a n =
    if not (is_neg a) && not (is_neg n)
    then rem_of a n
    else if is_neg a && is_neg n
    then both_negative a n
    else if is_neg a && not (is_neg n)
    then negative_dividend a n
    else negative_divisor a n

-- `r` lies between 0 and `n`, 0 included and `n` not.
abbrev pub Between : ℤ → ℤ → Type 0
Between (pos n) r = (neg_part r ≡ 0) × (pos_part r < n)
Between (negsuc n) r = (pos_part r ≡ 0) × (neg_part r < suc n)

-- `a` and `r` differ by a multiple of `n`.
abbrev pub Congruent : ℤ → ℤ → ℤ → Type 0
Congruent n a r = (pos_part a + neg_part r) % magnitude n ≡ (pos_part r + neg_part a) % magnitude n

-- The distance of `b` to the next multiple of `m`.
complement : (b m : ℕ) → 0 < m → ((m - b % m) % m + b) % m ≡ 0
complement b m h =
    mod-add-mod (m - b % m) m b
    ∙ ap (λ (t : ℕ). t % m) (grind (arith, div-add-mod b m, mod-lt b h))
    ∙ mul-mod_right m (suc (b / m))

mod_value-pos_pos : (a m : ℕ) → mod_value (pos a) (pos m) ≡ pos (a % m)
unfolding mod_value
mod_value-pos_pos a m = refl

mod_value-negsuc_pos : (a m : ℕ) → 0 < m → mod_value (negsuc a) (pos m) ≡ pos ((m - suc a % m) % m)
unfolding mod_value ◌-ℤ◌
mod_value-negsuc_pos a m h = ground (arith, mod-lt (suc a) h)

mod_value-pos_negsuc :
    (a m : ℕ) → mod_value (pos a) (negsuc m) ≡ neg (pos ((suc m - a % suc m) % suc m))
unfolding mod_value ◌+ℤ◌
mod_value-pos_negsuc a m = ground (arith, mod-lt a {m = suc m})

mod_value-negsuc_negsuc : (a m : ℕ) → mod_value (negsuc a) (negsuc m) ≡ neg (pos (suc a % suc m))
unfolding mod_value
mod_value-negsuc_negsuc a m = refl

neg_parts : (n : ℕ) → (pos_part (neg (pos n)) ≡ 0) × (neg_part (neg (pos n)) ≡ n)
neg_parts zero = (refl, refl)
neg_parts (suc n) = (refl, refl)

checked-fits : (z : ℤ) → magnitude z < long_limit → checked z ≡ some z
checked-fits (pos n) h = ground arith
checked-fits (negsuc n) h = ground arith

rem_of-negsuc :
    (a : ℤ) (m : ℕ) → magnitude a < long_limit → rem_of a (negsuc m) ≡ some (rem a (negsuc m))
rem_of-negsuc (pos a) m h = refl
rem_of-negsuc (negsuc a) m h = ground arith

magnitude-neg : (n : ℕ) → magnitude (neg (pos n)) ≡ n
magnitude-neg zero = refl
magnitude-neg (suc n) = refl

down-fits :
    (m r : ℕ) → suc m < long_limit → r < suc m → magnitude (pos (suc m) -ℤ pos r) < long_limit
unfolding ◌-ℤ◌
down-fits m r h l = ground arith

up-fits : (m r : ℕ) → suc m < long_limit → r < suc m → magnitude (pos r +ℤ negsuc m) < long_limit
unfolding ◌+ℤ◌
up-fits m r h l = ground arith

-- On all but the least number nothing overflows.
hif_mod-value :
    (a n : ℤ)
    → magnitude a < long_limit
    → magnitude n < long_limit
    → n ≢ pos 0
    → hif_mod a n ≡ some (mod_value a n)
unfolding hif_mod mod_value
hif_mod-value a (pos zero) f g h = absurd (h refl)
hif_mod-value (pos a) (pos (suc m)) f g h = refl
hif_mod-value (negsuc a) (pos (suc m)) f g h =
    rw (checked-fits (pos (suc a)) f)
      (rw (checked-fits _ (down-fits m (suc a % suc m) g (mod-lt (suc a) (omega arith)))) refl)
hif_mod-value (pos a) (negsuc m) f g h =
    let small = up-fits m (a % suc m) g (mod-lt a (omega arith)) in
    rw (checked-fits (pos (suc m)) g) (rw (checked-fits _ small) (rem_of-negsuc _ m small))
hif_mod-value (negsuc a) (negsuc m) f g h =
    let r = suc a % suc m in
    let below : r < suc m = mod-lt (suc a) (omega arith) in
    let small : magnitude (neg (pos r)) < long_limit = rw (magnitude-neg r) (omega arith) in
    rw (checked-fits (pos (suc a)) f, checked-fits (pos (suc m)) g)
      (checked-fits (neg (pos r)) small)

mod_value-Congruent :
    (a n : ℤ) → n ≢ pos 0 → Between n (mod_value a n) × Congruent n a (mod_value a n)
mod_value-Congruent a (pos zero) h = absurd (h refl)
mod_value-Congruent (pos a) (pos (suc m)) h =
    rw mod_value-pos_pos
      ((refl, mod-lt a (omega arith)), rw (add-zero, add-zero) (sym (mod-mod a (suc m))))
mod_value-Congruent (negsuc a) (pos (suc m)) h = rw (mod_value-negsuc_pos a (suc m) (omega arith)) (
  (refl, mod-lt _ (omega arith)),
  rw (complement (suc a) (suc m) (omega arith)) (zero-mod (suc m)),
)
mod_value-Congruent (pos a) (negsuc m) h =
    let c = (suc m - a % suc m) % suc m in
    let (p, q) = neg_parts c in
    rw (mod_value-pos_negsuc, p, q)
      (
        (refl, mod-lt _ (omega arith)),
        ap (λ (t : ℕ). t % suc m) (add_comm a c)
            ∙ complement a (suc m) (omega arith)
            ∙ sym (zero-mod (suc m)),
      )
mod_value-Congruent (negsuc a) (negsuc m) h =
    let (p, q) = neg_parts (suc a % suc m) in
    rw (mod_value-negsuc_negsuc, p, q)
      ((refl, mod-lt _ (omega arith)), rw (zero-add, zero-add) (mod-mod (suc a) (suc m)))

-- For a divisor other than 0, both operands a long long int but the least one, nothing overflows in
-- hif_mod, and its result differs from the dividend by a multiple of the divisor and lies between 0
-- and the divisor, on the divisor's side.
pub hif_mod-Congruent :
    (a n : ℤ)
    → magnitude a < long_limit
    → magnitude n < long_limit
    → n ≢ pos 0
    → (r : ℤ) × (hif_mod a n ≡ some r) × Between n r × Congruent n a r
hif_mod-Congruent a n f g h =
    let (between, congruent) = mod_value-Congruent a n h in
    (mod_value a n, hif_mod-value a n f g h, between, congruent)
