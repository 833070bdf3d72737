-- ===== src/Support/VectorOps.antt =====
-- The vectors of logic values of SystemC, sc_dt::sc_lv, as hif2scSupport uses them: a vector is the
-- list of its values from index 0 on, and the operations that SystemC implements are the fields of
-- a record. What SystemC documents of them is a record of its own.
use hif_backend.Prelude.{
  ℕ, zero, suc, ◌-◌, ◌≤◌, ◌≡◌, ◌↔◌, Bool, true, false, List, [], ◌∷◌, ◌++◌, Bytes, length,
  replicate,
}
use hif_backend.Prelude.Int.{ℤ}
use hif_backend.Support.FourState.{Level, logic_0, logic_1, logic_x, level_char, FourState}

abbrev pub take : {A : Type 0} → ℕ → List A → List A
take zero xs = []
take (suc n) [] = []
take (suc n) (x ∷ xs) = x ∷ take n xs

abbrev pub drop : {A : Type 0} → ℕ → List A → List A
drop zero xs = xs
drop (suc n) [] = []
drop (suc n) (x ∷ xs) = drop n xs

abbrev pub all : {A : Type 0} → (A → Bool) → List A → Bool
all p [] = true
all p (x ∷ xs) = elim (p x) [ true ↦ all p xs | false ↦ false ]

-- The exclusive or of two levels and the negation and the or of levels, of which one that is not
-- known makes the result unknown unless another one settles it.
unfoldable pub level_xor : Level → Level → Level
level_xor logic_0 logic_0 = logic_0
level_xor logic_0 logic_1 = logic_1
level_xor logic_1 logic_0 = logic_1
level_xor logic_1 logic_1 = logic_0
level_xor _ _ = logic_x

unfoldable pub level_not : Level → Level
level_not logic_0 = logic_1
level_not logic_1 = logic_0
level_not _ = logic_x

unfoldable pub level_or : Level → Level → Level
level_or logic_1 m = logic_1
level_or l logic_1 = logic_1
level_or logic_0 logic_0 = logic_0
level_or _ _ = logic_x

module _ (F : FourState) where
  abbrev pub logic : Level → F.Logic
  logic l = F.of_char (level_char l)

  -- The characters of a vector, the one at index 0 last.
  abbrev pub text_of : List F.Logic → Bytes
  text_of [] = []
  text_of (v ∷ s) = text_of s ++ F.to_char v ∷ []

pub record VectorOps (F : FourState) : Type 0 where
  pub of_bool : Bool → F.Logic  -- sc_logic(bool)
  pub not_logic : F.Logic → F.Logic  -- operator~
  pub vector_is_01 : List F.Logic → Bool  -- is_01
  pub vector_eq : List F.Logic → List F.Logic → Bool  -- operator==
  pub vector_xor : List F.Logic → List F.Logic → List F.Logic  -- operator^
  pub or_reduce : List F.Logic → F.Logic
  pub widen : ℕ → List F.Logic → List F.Logic  -- the assignment to a vector of this length
  pub range : List F.Logic → ℕ → List F.Logic  -- range(n - 1, 0)
  pub to_string : List F.Logic → Bytes
  pub of_string : ℕ → Bytes → List F.Logic  -- sc_lv<n>(const char *)
  pub fresh : ℕ → List F.Logic  -- sc_lv<n>()
  pub shift_left : List F.Logic → ℕ → List F.Logic  -- operator<<
  pub shift_right : List F.Logic → ℕ → List F.Logic  -- operator>>
  pub to_uint64 : List F.Logic → ℕ
  pub bigint : List F.Logic → ℤ  -- sc_bigint
  pub biguint : List F.Logic → ℤ  -- sc_biguint

-- The documented behaviour of those that the results rest on.
pub record IsVectorOps (F : FourState) (O : VectorOps F) : Type 0 where
  pub of_bool-true : O.of_bool true ≡ logic F logic_1
  pub of_bool-false : O.of_bool false ≡ logic F logic_0
  pub not_logic-logic : (l : Level) → O.not_logic (logic F l) ≡ logic F (level_not l)
  pub vector_is_01_lem : (v : List F.Logic) → O.vector_is_01 v ≡ all F.is_01 v
  pub vector_eq_iff : (v w : List F.Logic) → (O.vector_eq v w ≡ true) ↔ (v ≡ w)
  pub vector_xor-nil : O.vector_xor [] [] ≡ []
  pub vector_xor-cons :
      (l m : Level) (v w : List F.Logic)
      → O.vector_xor (logic F l ∷ v) (logic F m ∷ w) ≡ logic F (level_xor l m) ∷ O.vector_xor v w
  pub or_reduce-nil : O.or_reduce [] ≡ logic F logic_0
  pub or_reduce-cons :
      (l m : Level) (v : List F.Logic)
      → O.or_reduce v ≡ logic F m
      → O.or_reduce (logic F l ∷ v) ≡ logic F (level_or l m)
  pub widen_lem :
      (n : ℕ) (v : List F.Logic)
      → length v ≤ n
      → O.widen n v ≡ v ++ replicate (n - length v) (logic F logic_0)
  pub range_lem : (v : List F.Logic) (n : ℕ) → n ≤ length v → O.range v n ≡ take n v
  pub to_string_lem : (v : List F.Logic) → O.to_string v ≡ text_of F v
  -- A text that begins with one character twice; one that begins with 0X is hexadecimal.
  pub of_string-text_of :
      (v : List F.Logic) (x : F.Logic)
      → let w = (v ++ x ∷ []) ++ x ∷ [] in O.of_string (length w) (text_of F w) ≡ w
  pub shift_right_lem :
      (v : List F.Logic) (n : ℕ)
      → n ≤ length v
      → O.shift_right v n ≡ drop n v ++ replicate n (logic F logic_0)
