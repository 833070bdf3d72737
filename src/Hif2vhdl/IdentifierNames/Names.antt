-- ===== src/Hif2vhdl/IdentifierNames/Names.antt =====
-- src/hif2vhdl/PreRefine_identifierNames.cpp: `_analyzeString` as a function on names.
use Prim.Native.Nat.{ℕ, suc, ◌<◌, ◌≤◌}
use hif_backend.Prelude.{
  ◌≡◌, refl, ◌∙◌, Bool-cases, false, Bool, [], ◌∷◌, ◌++◌, some, Bytes, ◌==◌, arith, inl, inr,
  length, ◌↔◌,
}
use hif_backend.Hif2vhdl.IdentifierNames.{
  underscore, id_text, replace_first_underscore, analyze_string,
}
use hif_backend.Hif2vhdl.IdentifierNames.Spacing.{
  pairs, spaced, replace_double_underscore-spaced, pairs-spaced, spaced-eq_self,
}

-- The one-pass form of `_analyzeString`.
pub fixed_name : Bytes → Bytes
fixed_name n = spaced (replace_first_underscore n)

-- A text begins with an underscore.
pub leading : Bytes → Bool
leading [] = false
leading (c ∷ s) = c == underscore

-- What VHDL asks of an identifier as far as underscores at the front and in the middle go.
pub record IsWellSpaced (n : Bytes) : Type 0 where
  pub no_leading : leading n ≡ false
  pub no_pair : pairs n ≡ 0

pairs-le-length : (s : Bytes) → pairs s ≤ length s
unfolding pairs
pairs-le-length [] = omega arith
pairs-le-length (c ∷ []) = omega arith
pairs-le-length (c ∷ d ∷ s) = ground (arith, pairs-le-length (d ∷ s))

pairs-replace_first_underscore : (s : Bytes) → pairs (replace_first_underscore s) ≡ pairs s
unfolding pairs replace_first_underscore
pairs-replace_first_underscore [] = refl
pairs-replace_first_underscore (c ∷ s) = ground arith

-- With more fuel than the name has bytes, `_analyzeString` ends with the one-pass result.
pub analyze_string-fixed_name :
    (fuel : ℕ) (n : Bytes) → length n < fuel → analyze_string fuel n ≡ some (fixed_name n)
unfolding analyze_string fixed_name
analyze_string-fixed_name fuel n h =
    replace_double_underscore-spaced fuel (replace_first_underscore n)
      (omega (arith, pairs-le-length n, pairs-replace_first_underscore n))

leading-spaced : (s : Bytes) → leading (spaced s) ≡ leading s
unfolding leading spaced
leading-spaced [] = refl
leading-spaced (c ∷ []) = refl
leading-spaced (c ∷ d ∷ s) = ground arith

leading-replace_first_underscore : (s : Bytes) → leading (replace_first_underscore s) ≡ false
unfolding leading replace_first_underscore
leading-replace_first_underscore [] = refl
leading-replace_first_underscore (c ∷ s) = ground arith

pub fixed_name-IsWellSpaced : (n : Bytes) → IsWellSpaced (fixed_name n)
unfolding fixed_name
fixed_name-IsWellSpaced n = record {
  no_leading = leading-spaced _ ∙ leading-replace_first_underscore n;
  no_pair = pairs-spaced _;
}

replace_first_underscore-eq_self : (n : Bytes) → leading n ≡ false → replace_first_underscore n ≡ n
unfolding leading replace_first_underscore
replace_first_underscore-eq_self [] h = refl
replace_first_underscore-eq_self (c ∷ s) h = ground arith

-- The pass leaves a name alone that is well spaced.
pub fixed_name-eq_self : (n : Bytes) → IsWellSpaced n → fixed_name n ≡ n
unfolding fixed_name
fixed_name-eq_self n w =
    rw (replace_first_underscore-eq_self n w.no_leading) (spaced-eq_self n w.no_pair)

pub fixed_name_idem : (n : Bytes) → fixed_name (fixed_name n) ≡ fixed_name n
fixed_name_idem n = fixed_name-eq_self (fixed_name n) (fixed_name-IsWellSpaced n)

-- `_analyzeString` always ends; its result neither begins with an underscore nor holds two in a
-- row; and it is the name itself exactly if the name had this form.
pub analyze_string-IsWellSpaced :
    (n : Bytes)
    → (r : Bytes) × (analyze_string (suc (length n)) n ≡ some r)
      × IsWellSpaced r
      × ((r ≡ n) ↔ IsWellSpaced n)
analyze_string-IsWellSpaced n = (
  fixed_name n,
  analyze_string-fixed_name (suc (length n)) n (omega arith),
  fixed_name-IsWellSpaced n,
  ((λ e. rw e at (fixed_name-IsWellSpaced n)), fixed_name-eq_self n),
)

spaced_collision :
    (p s : Bytes)
    → spaced (p ++ underscore ∷ underscore ∷ s)
      ≡ spaced (p ++ (underscore ∷ id_text ++ underscore ∷ s))
unfolding spaced
spaced_collision [] s = refl
spaced_collision (c ∷ []) s = ground arith
spaced_collision (c ∷ d ∷ p) s = ground (arith, spaced_collision (d ∷ p) s)

-- Two names that differ only in that one has "__" where the other has "_id_" become one name.
fixed_name_collision :
    (p s : Bytes)
    → fixed_name (p ++ underscore ∷ underscore ∷ s)
      ≡ fixed_name (p ++ (underscore ∷ id_text ++ underscore ∷ s))
unfolding fixed_name replace_first_underscore
fixed_name_collision [] s = spaced_collision (id_text) s
fixed_name_collision (c ∷ p) s = elim (Bool-cases (c == underscore)) [
  | inl y ↦ rw y (spaced_collision (id_text ++ c ∷ p) s)
  | inr n ↦ rw n (spaced_collision (c ∷ p) s)
]

pub fixed_name-nil : fixed_name [] ≡ []
unfolding fixed_name replace_first_underscore spaced
fixed_name-nil = refl
