-- ===== src/Hif2sc/Expressions/Derivation.antt =====
-- src/hif2sc/PrintSystemCVisitor.cpp: the values whose texts C++ reads as the trees of the values.
use hif_backend.Prelude.{
  ℕ, ◌≤◌, ◌≡◌, refl, Bool, true, false, ◌&&◌, ◌||◌, [], ◌∷◌, ◌++◌, Bytes, codes, ◌==◌, arith,
}
use hif_backend.Hif.{Operator, op_gt, op_ge, op_lt, op_le}
use hif_backend.Hif2sc.Expressions.{
  Value, operand, int_value, unary, binary, member, static_cast, c_cast, when,
  expression_precedence, Parent, in_expression, in_member, in_when, in_c_cast, in_assign, in_other,
  need_wrap_paren, prec_member,
}
use hif_backend.Hif2sc.Expressions.Printing.{parenthesised}
use hif_backend.Hif2sc.Expressions.Grammar.{
  Tree, Reads, parens, at_least, glued, one_of, prefix_operators,
}
use hif_backend.Hif2sc.Expressions.Precedence.{required, Proper, clash, required-top}
use hif_backend.Hif2sc.Expressions.Operators.{is_prefix}

-- Whether a comparison by `<` or `<=` stands as the second operand of one by `>` or `>=`.
abbrev pub is_gt_ge : Operator → Bool
is_gt_ge op = elim op [ op_gt ↦ true | op_ge ↦ true | _ ↦ false ]

abbrev pub is_lt_le : Operator → Bool
is_lt_le op = elim op [ op_lt ↦ true | op_le ↦ true | _ ↦ false ]

abbrev pub compares_down : Value → Bool
compares_down v = elim v [ binary s op x y ↦ is_lt_le op | _ ↦ false ]

abbrev pub is_int : Value → Bool
is_int v = elim v [ int_value z ↦ true | _ ↦ false ]

abbrev pub is_subscripted : Parent → Bool
is_subscripted parent = elim parent [ in_member is_prefix ↦ is_prefix | _ ↦ false ]

abbrev pub value_precedence : Value → ℕ
value_precedence v = elim v [ binary s op x y ↦ expression_precedence s true op | _ ↦ 0 ]

gt_ge-precedence :
    (s : Bool) (op : Operator) → (expression_precedence s true op == 10) ≡ true → is_gt_ge op ≡ true
unfolding expression_precedence
gt_ge-precedence s op h = ground arith

lt_le-precedence :
    (s : Bool) (op : Operator) → (expression_precedence s true op == 11) ≡ true → is_lt_le op ≡ true
unfolding expression_precedence
lt_le-precedence s op h = ground arith

and-both : (a b : Bool) → (a && b) ≡ true → (a ≡ true) × (b ≡ true)
and-both a b h = ground arith

pub clash-compares :
    (s : Bool) (op : Operator) (w : Value)
    → (is_gt_ge op && compares_down w) ≡ false
    → clash (value_precedence w) (in_expression (expression_precedence s true op) true) ≡ false
clash-compares s op (binary s' o x y) h =
    ground (arith, gt_ge-precedence s op, lt_le-precedence s' o)
clash-compares s op (operand t) h = ground arith
clash-compares s op (int_value z) h = ground arith
clash-compares s op (unary s' o x) h = ground arith
clash-compares s op (member x y) h = ground arith
clash-compares s op (static_cast r t x) h = ground arith
clash-compares s op (c_cast t x) h = ground arith
clash-compares s op (when alts d) h = ground arith

-- A text glues no more for what follows it.
pub glued-append :
    (a b t : Bytes)
    → one_of prefix_operators b ≡ true
    → glued a b ≡ false
    → glued a (b ++ t) ≡ false
glued-append a [] t h g = let absurd : ⊥ = ground (arith, h) in elim absurd [ ]
glued-append [] (c ∷ b) t h g = refl
glued-append (d ∷ a) (c ∷ b) t h g = g

pub glued-bracket :
    (a b t u : Bytes) → glued a b ≡ false → glued a (b ++ codes "[" ++ t ++ u) ≡ false
glued-bracket [] [] t u g = refl
glued-bracket (d ∷ a) [] t u g = ground arith
glued-bracket [] (c ∷ b) t u g = refl
glued-bracket (d ∷ a) (c ∷ b) t u g = g

pub glued-paren : (a t : Bytes) → glued a (40 ∷ t) ≡ false
glued-paren [] t = refl
glued-paren (d ∷ a) t = ground arith

pub glued-s : (a t : Bytes) → glued a (115 ∷ t) ≡ false
glued-s [] t = refl
glued-s (d ∷ a) t = ground arith

pub glued-r : (a t : Bytes) → glued a (114 ∷ t) ≡ false
glued-r [] t = refl
glued-r (d ∷ a) t = ground arith

pub glued-wrapped :
    (a : Bytes) (wrap : Bool) (t : Bytes)
    → glued a t ≡ false
    → glued a (parenthesised wrap t) ≡ false
glued-wrapped a true t h = glued-paren a (t ++ codes ")")
glued-wrapped a false t h = h

pub or-first : (a b : Bool) → (a || b) ≡ false → a ≡ false
or-first a b h = ground arith

pub need_wrap_paren-member : (parent : Parent) → need_wrap_paren prec_member false parent ≡ false
unfolding need_wrap_paren
need_wrap_paren-member parent = ground arith

pub need_wrap_paren-min : (parent : Parent) → need_wrap_paren 0 false parent ≡ false
unfolding need_wrap_paren
need_wrap_paren-min parent = refl

pub clash-when : (parent : Parent) → clash 3 parent ≡ false
clash-when parent = ground arith

pub and-no : (b : Bool) → (b && false) ≡ false
and-no b = ground arith

-- Only the prefix of a subscript has to be more than an operand.
pub required-operand :
    (parent : Parent) → Proper parent → is_subscripted parent ≡ false → required parent ≤ 12
required-operand (in_expression p true) h e = let small : p ≤ 14 = h.2 refl in ground arith
required-operand (in_expression p false) h e = let small : p ≤ 19 = h.1 in ground arith
required-operand (in_member true) h e = let absurd_case : ⊥ = cc in absurd absurd_case
required-operand (in_member false) h e = omega arith
required-operand in_when h e = omega arith
required-operand in_c_cast h e = omega arith
required-operand in_assign h e = omega arith
required-operand in_other h e = omega arith

module _ (IsName : Bytes → Type 0) where
  -- What the parentheses make of a text at a level.
  pub parenthesised-Reads :
      (wrap : Bool) (parent : Parent) (l : ℕ) {t : Bytes} {c : Tree}
      → Proper parent
      → Reads IsName l t c
      → (wrap ≡ false → required parent ≤ l)
      → Reads IsName (required parent) (parenthesised wrap t) c
  parenthesised-Reads true parent l h r e =
      at_least (required-top parent h) (parens (at_least (omega arith) r))
  parenthesised-Reads false parent l h r e = at_least (e refl) r
