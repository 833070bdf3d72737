-- ===== src/Hif2sc/Expressions/Relational.antt =====
-- src/hif2sc/PrintSystemCVisitor.cpp: values that differ and are printed alike.
use hif_backend.Prelude.{
  ℕ, ◌≡◌, refl, Bool, true, false, ◌++◌, some, Bytes, codes, arith, append_assoc,
}
use hif_backend.Prelude.Int.{ℤ}
use hif_backend.Hif.{op_gt, op_lt}
use hif_backend.Hif2sc.Expressions.{
  Value, operand, int_value, unary, binary, member, static_cast, c_cast, when, no_alternative,
  alternative, expression_precedence, Parent, in_expression, in_other, need_wrap_paren, prec_member,
  prec_min, prec_cast, prec_when,
}
use hif_backend.Hif2sc.Expressions.Grammar.{Tree, infix_of, Reads, between, at_least}
use hif_backend.Hif2sc.Expressions.Precedence.{Proper-comparison}
use hif_backend.Hif2sc.Expressions.Derivation.{compares_down, is_int, clash-compares, and-no}
use hif_backend.Hif2sc.Expressions.Reading.{tree, IsPlain, Allowed, Read, visit_value-Read}
use hif_backend.Hif2sc.Expressions.Printing.{visit_value, operator_text, printed_operator, spaced}

append-nested : (a u b c d w : Bytes) → a ++ (u ++ b ++ c ++ d ++ w) ≡ a ++ u ++ b ++ c ++ d ++ w
append-nested a u b c d w =
    rw
      (
        ← append_assoc a (u ++ b ++ c ++ d) w,
        ← append_assoc a (u ++ b ++ c) d,
        ← append_assoc a (u ++ b) c,
        ← append_assoc a u b,
      )
      refl

same-wrap :
    (prec : ℕ) (is_when : Bool)
    → need_wrap_paren prec is_when (in_expression 11 false)
      ≡ need_wrap_paren prec is_when (in_expression 10 true)
unfolding need_wrap_paren
same-wrap prec w = ground arith

module _ (int_text : ℤ → Bytes) where
  same-place :
      (v : Value)
      → visit_value int_text 0 v (in_expression 11 false)
        ≡ visit_value int_text 0 v (in_expression 10 true)
  unfolding visit_value
  same-place (operand t) = refl
  same-place (int_value z) = refl
  same-place (unary s op v) =
      rw (same-wrap (expression_precedence s false (printed_operator op)) false) refl
  same-place (binary s op v w) =
      rw (same-wrap (expression_precedence s true (printed_operator op)) false) refl
  same-place (member p i) = rw (same-wrap prec_member false) refl
  same-place (static_cast is_address type v) = rw (same-wrap prec_min false) refl
  same-place (c_cast type v) = rw (same-wrap prec_cast false) refl
  same-place (when no_alternative d) = refl
  same-place (when (alternative c v alts) d) = rw (same-wrap prec_when true) refl

module _ (int_text : ℤ → Bytes) (int_tree : ℤ → Tree) (IsName : Bytes → Type 0)
    (int_Reads : (z : ℤ) → Reads IsName 12 (int_text z) (int_tree z)) where
  -- Below an object that is no operator and outside of angle brackets, the text of `x > (y < z)`
  -- for plain values, of which `y` is no comparison by `<` or `<=`, is one that C++ reads as
  -- `(x > y) < z`, if the texts of constants of integers are of their trees.
  pub greater-less :
      (x y z : Value)
      → IsPlain int_text int_tree IsName x
      → IsPlain int_text int_tree IsName y
      → IsPlain int_text int_tree IsName z
      → compares_down y ≡ false
      → let tree_of : Value → Tree = tree int_text int_tree in
        (t : Bytes) × (visit_value int_text 0
            (binary false op_gt x (binary false op_lt y z))
            in_other
          ≡ some t)
        × Reads IsName 1 t
            (infix_of (codes "<") (infix_of (codes ">") (tree_of x) (tree_of y)) (tree_of z))
  unfolding visit_value operator_text expression_precedence need_wrap_paren
  greater-less x y z hx hy hz n =
      let read : (v : Value) (parent : Parent)
          → IsPlain int_text int_tree IsName v
          → Allowed int_text int_tree 0 IsName int_Reads v parent
          → Read int_text int_tree 0 IsName int_Reads v parent =
        visit_value-Read int_text int_tree 0 IsName int_Reads in
      let (t, e, r, k) =
        read x (in_expression 10 false) hx
          (Proper-comparison 10 false (omega arith) (omega arith), refl, and-no (is_int x)) in
      let (u, f, q, l) = read y (in_expression 10 true) hy (
        Proper-comparison 10 true (omega arith) (omega arith),
        clash-compares false op_gt y n,
        and-no (is_int y),
      ) in
      let (w, g, q2, m) =
        read z (in_expression 11 true) hz
          (Proper-comparison 11 true (omega arith) (omega arith), refl, and-no (is_int z)) in
      (
        spaced t (codes ">") (spaced u (codes "<") w),
        rw (e, same-place int_text y, f, g) refl,
        rw
            (append-nested (t ++ codes " " ++ codes ">" ++ codes " ") u (codes " ") (codes "<")
              (codes " ") w)
            (at_least {n = 1} {m = 8} (omega arith)
              (between (codes "<") {level = 8} refl (between (codes ">") {level = 8} refl r q) q2)),
      )
