-- ===== src/Hif2verilog/Literals/Spelling.antt =====
-- src/hif2verilog/VerilogPrinter.cpp: the spelling of a bit vector with unknown bits, and whether it
-- counts as unknown.
use Prim.Native.Nat.{ℕ, zero, suc, ◌/◌}
use hif_backend.Prelude.{
  ◌≡◌, ◌≢◌, refl, ap, ◌∙◌, Bool, true, false, ◌&&◌, ◌||◌, not, [], ◌∷◌, ◌++◌, map, Option, none,
  some, Bytes, codes, decimal, digits_of, ltb, ◌==◌, arith, All, append_assoc, Bool-cases,
  Option-cases, inl, inr, ◌⊎◌,
}
use hif_backend.Prelude.Int.{ℤ, pos, negsuc, ◌+ℤ◌, ◌-ℤ◌}
use hif_backend.Hif2verilog.Literals.{
  tolower, show, is_verilog_binary_literal, Span, BitvectorType, BitvectorValue, size_prefix,
  get_vector_value, is_unknown_digit, after_base, unknown_from, is_unknown_literal,
}

-- Every digit is X or Z, underscores apart.
abbrev pub all_unknown : Bytes → Bool
all_unknown [] = true
all_unknown (c ∷ s) = (c == b'_' || is_unknown_digit c) && all_unknown s

-- There is a digit that is no underscore.
abbrev pub has_digit : Bytes → Bool
has_digit [] = false
has_digit (c ∷ s) = not (c == b'_') || has_digit s

-- The digits that a Verilog binary literal may hold once it is in lower case.
abbrev pub IsDigit : ℕ → Type 0
IsDigit c = (c == b'0' || c == b'1' || c == b'x' || c == b'z' || c == b'_') ≡ true

unknown_from_lem :
    (s : Bytes) (saw : Bool) → unknown_from s saw ≡ (all_unknown s && (saw || has_digit s))
unfolding unknown_from
unknown_from_lem [] saw = ground arith
unknown_from_lem (c ∷ s) saw = ground (arith, unknown_from_lem s saw, unknown_from_lem s true)

all_unknown-tolower : (s : Bytes) → all_unknown (map tolower s) ≡ all_unknown s
all_unknown-tolower [] = refl
all_unknown-tolower (c ∷ s) = ground (arith, all_unknown-tolower s)

has_digit-tolower : (s : Bytes) → has_digit (map tolower s) ≡ has_digit s
has_digit-tolower [] = refl
has_digit-tolower (c ∷ s) = ground (arith, has_digit-tolower s)

literal_of_unknown : (s : Bytes) → all_unknown s ≡ true → is_verilog_binary_literal s ≡ true
unfolding is_verilog_binary_literal
literal_of_unknown [] h = refl
literal_of_unknown (c ∷ s) h = ground (arith, literal_of_unknown s)

map-tolower-IsDigit : (s : Bytes) → is_verilog_binary_literal s ≡ true → All IsDigit (map tolower s)
unfolding is_verilog_binary_literal
map-tolower-IsDigit [] h = tt
map-tolower-IsDigit (c ∷ s) h = ground (arith, map-tolower-IsDigit s)

abbrev quote : ℕ
quote = b'\''

All-snoc : (P : ℕ → Type 0) (s : Bytes) {d : ℕ} → All P s → P d → All P (s ++ d ∷ [])
All-snoc P [] h p = (p, tt)
All-snoc P (c ∷ s) (q, h) p = (q, All-snoc P s h p)

digits_of-quote : (fuel n : ℕ) → All (λ c. c ≢ quote) (digits_of fuel n)
digits_of-quote zero n = tt
digits_of-quote (suc fuel) n = elim (Bool-cases (ltb n 10)) [
  | inl t ↦ rw t (omega arith, tt)
  | inr f ↦
      rw f (All-snoc _ (digits_of fuel (n / 10)) (digits_of-quote fuel (n / 10)) (omega arith))
]

after_base-append :
    (p s : Bytes) (d : ℕ) → All (λ c. c ≢ quote) p → after_base (p ++ quote ∷ d ∷ s) ≡ some s
unfolding after_base
after_base-append [] s d h = refl
after_base-append (c ∷ p) s d h = ground (arith, after_base-append p s d)

-- Unless it is signed as an integer is, a rendered value is its prefix and then its digits.
show-quote : (n : ℤ) → All (λ c. c ≢ quote) (show n)
unfolding show decimal
show-quote (pos n) = digits_of-quote (suc n) n
show-quote (negsuc n) = (omega arith, digits_of-quote (suc (suc n)) (suc n))

after_base-none : (s : Bytes) → All (λ c. c ≢ quote) s → after_base s ≡ none
unfolding after_base
after_base-none [] h = refl
after_base-none (c ∷ s) (p, h) = ground (arith, after_base-none s h)

digits-quote : (s : Bytes) → All IsDigit s → All (λ c. c ≢ quote) s
digits-quote [] h = tt
digits-quote (c ∷ s) (p, h) = (ground arith, digits-quote s h)

unknown_behind :
    (p s : Bytes)
    → All IsDigit s
    → p ≡ [] ⊎ after_base (p ++ s) ≡ some s
    → is_unknown_literal (p ++ s) ≡ (all_unknown s && has_digit s)
unfolding is_unknown_literal
unknown_behind p s h (inl e) =
    rw e (rw (is_unknown_literal, after_base-none s (digits-quote s h)) (unknown_from_lem s false))
unknown_behind p s h (inr e) = rw (is_unknown_literal, e) (unknown_from_lem s false)

after_base-size_prefix :
    (p : Option Span) (s : Bytes) → size_prefix p ≡ [] ⊎ after_base (size_prefix p ++ s) ≡ some s
unfolding size_prefix
after_base-size_prefix none s = inl refl
after_base-size_prefix (some p) s = elim (Option-cases p.left_bound) [
  | inl e ↦ inl (rw e refl)
  | inr (l, e) ↦ elim (Option-cases p.right_bound) [
    | inl f ↦ inl (rw (e, f) refl)
    | inr (r, f) ↦
        let width = show (l -ℤ r +ℤ pos 1) in
        inr (
          rw (e, f, append_assoc width (codes "'b") s)
            (after_base-append width s b'b' (show-quote (l -ℤ r +ℤ pos 1))))
  ]
]

unknown_behind_prefix :
    (p : Option Span) (s : Bytes)
    → All IsDigit s
    → is_unknown_literal (size_prefix p ++ s) ≡ (all_unknown s && has_digit s)
unknown_behind_prefix p s h = unknown_behind (size_prefix p) s h (after_base-size_prefix p s)

-- A bit vector with unknown bits whose digits Verilog has is spelled with its size, if its span is
-- of literals, and those digits in lower case; and that spelling is an unknown literal exactly if
-- the value has a digit and each is X or Z, underscores apart.
is_unknown_literal-get_vector_value :
    (v : BitvectorValue) (t : BitvectorType)
    → v.type ≡ some t
    → v.is01 ≡ false
    → is_verilog_binary_literal v.digits ≡ true
    → (get_vector_value v ≡ size_prefix t.span ++ map tolower v.digits)
      × All IsDigit (map tolower v.digits)
      × (is_unknown_literal (get_vector_value v) ≡ (all_unknown v.digits && has_digit v.digits))
unfolding get_vector_value
is_unknown_literal-get_vector_value v t e h d =
    let digits = map-tolower-IsDigit v.digits d in
    rw (e, h, d)
      (
        refl,
        digits,
        unknown_behind_prefix t.span _ digits
            ∙ ap (λ b. b && has_digit (map tolower v.digits)) (all_unknown-tolower v.digits)
            ∙ ap (λ b. all_unknown v.digits && b) (has_digit-tolower v.digits),
      )
