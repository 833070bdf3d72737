-- ===== src/Hif2sc/Expressions/Precedence.antt =====
-- src/hif2sc/PrintSystemCVisitor.cpp: what _needWrapParen leaves without parentheses, by the levels
-- of the grammar of C++.
use hif_backend.Prelude.{
  ℕ, suc, ◌-◌, ◌≤◌, ◌≡◌, refl, Bool, true, false, ◌&&◌, leb, ◌==◌, if◌then◌else◌, arith,
}
use hif_backend.Hif2sc.Expressions.{
  Parent, in_expression, in_member, in_when, in_c_cast, in_assign, in_other, need_wrap_paren,
}

-- The level of the grammar that a precedence stands for.
abbrev pub level_of : ℕ → ℕ
level_of prec =
    if leb prec 2
    then prec - 1
    else if leb prec 10
    then prec - 2
    else if leb prec 14
    then prec - 3
    else if leb prec 19
    then 12
    else 13

-- The level that the grammar asks of a value at a place.
abbrev pub required : Parent → ℕ
required (in_expression prec second) = if second then suc (level_of prec) else level_of prec
required (in_member is_prefix) = if is_prefix then 13 else 1
required in_when = 2
required in_c_cast = 12
required in_assign = 1
required in_other = 1

-- An expression that has operands stands for an operator of the grammar, and one with a second
-- operand for one between two operands.
abbrev pub Proper : Parent → Type 0
Proper parent = elim parent [
  | in_expression prec second ↦
      (1 ≤ prec) × (prec ≤ 19) × (second ≡ true → prec ≤ 14) × (prec ≡ 2 → ⊥) × (prec ≡ 3 → ⊥)
  | _ ↦ Unit
]

abbrev pub clash : ℕ → Parent → Bool
clash prec parent = elim parent [
  | in_expression p second ↦ second && (p == 10 && prec == 11)
  | _ ↦ false
]

pub required-top : (parent : Parent) → Proper parent → required parent ≤ 13
required-top (in_expression p true) h = ground (arith, h)
required-top (in_expression p false) h = ground (arith, h)
required-top (in_member true) h = omega arith
required-top (in_member false) h = omega arith
required-top in_when h = omega arith
required-top in_c_cast h = omega arith
required-top in_assign h = omega arith
required-top in_other h = omega arith

pub need_wrap_paren-required :
    (prec : ℕ) (is_when : Bool) (parent : Parent)
    → 1 ≤ prec
    → prec ≤ 19
    → (prec ≡ 2 → ⊥)
    → (prec ≡ 3 → is_when ≡ true)
    → Proper parent
    → clash prec parent ≡ false
    → need_wrap_paren prec is_when parent ≡ false
    → required parent ≤ level_of prec
unfolding need_wrap_paren
need_wrap_paren-required prec w (in_expression p true) low high n2 n3 h c e =
    ground (arith, h.0, h.1, h.2, h.3, h.4)
need_wrap_paren-required prec w (in_expression p false) low high n2 n3 h c e =
    ground (arith, h.0, h.1, h.2, h.3, h.4)
need_wrap_paren-required prec w (in_member true) low high n2 n3 h c e = ground arith
need_wrap_paren-required prec w (in_member false) low high n2 n3 h c e = ground arith
need_wrap_paren-required prec w in_when low high n2 n3 h c e = ground arith
need_wrap_paren-required prec w in_c_cast low high n2 n3 h c e = ground arith
need_wrap_paren-required prec w in_assign low high n2 n3 h c e = ground arith
need_wrap_paren-required prec w in_other low high n2 n3 h c e = ground arith

-- A place at which an operand of an operator in front, or the prefix of a subscript, stands.
abbrev pub Tight : Parent → Type 0
Tight parent = elim parent [
  | in_expression p second ↦ (15 ≤ p) × (second ≡ false)
  | in_member is_prefix ↦ is_prefix ≡ true
  | _ ↦ ⊥
]

pub need_wrap_paren-Tight :
    (prec : ℕ) (is_when : Bool) (parent : Parent)
    → 1 ≤ prec
    → prec ≤ 14
    → Tight parent
    → need_wrap_paren prec is_when parent ≡ true
unfolding need_wrap_paren
need_wrap_paren-Tight prec w (in_expression p second) low high h = ground (arith, h.0, h.1)
need_wrap_paren-Tight prec w (in_member is_prefix) low high h = ground (arith, h)
need_wrap_paren-Tight prec w in_when low high h = absurd h
need_wrap_paren-Tight prec w in_c_cast low high h = absurd h
need_wrap_paren-Tight prec w in_assign low high h = absurd h
need_wrap_paren-Tight prec w in_other low high h = absurd h

clash-late : (prec : ℕ) (parent : Parent) → 15 ≤ prec → clash prec parent ≡ false
clash-late prec (in_expression p second) h = ground arith
clash-late prec (in_member is_prefix) h = refl
clash-late prec in_when h = refl
clash-late prec in_c_cast h = refl
clash-late prec in_assign h = refl
clash-late prec in_other h = refl

pub level_of-unary : (prec : ℕ) → 15 ≤ prec → prec ≤ 19 → level_of prec ≡ 12
level_of-unary prec low high = ground arith

pub need_wrap_paren-unary :
    (prec : ℕ) (parent : Parent)
    → 15 ≤ prec
    → prec ≤ 19
    → Proper parent
    → need_wrap_paren prec false parent ≡ false
    → required parent ≤ 12
need_wrap_paren-unary prec parent low high ok n =
    let le : required parent ≤ level_of prec =
      need_wrap_paren-required prec false parent (omega (arith, low)) high
        (λ e. omega (arith, e, low))
        (λ e. let no_case : ⊥ = omega (arith, e, low) in absurd no_case) ok
        (clash-late prec parent low) n in
    omega (arith, le, level_of-unary prec low high)

-- The places below a comparison.
pub Proper-comparison : (p : ℕ) (second : Bool) → 10 ≤ p → p ≤ 11 → Proper (in_expression p second)
Proper-comparison p second low high = (
  omega (arith, low),
  omega (arith, high),
  λ e. omega (arith, high),
  λ e. omega (arith, e, low),
  λ e. omega (arith, e, low),
)
