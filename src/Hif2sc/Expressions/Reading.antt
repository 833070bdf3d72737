-- ===== src/Hif2sc/Expressions/Reading.antt =====
-- src/hif2sc/PrintSystemCVisitor.cpp: the texts of values, read by the grammar of C++.
use hif_backend.Prelude.{
  ℕ, ◌≡◌, refl, Bool, true, false, ◌&&◌, ◌++◌, append_assoc, some, Bytes, codes, arith,
}
use hif_backend.Prelude.Int.{ℤ}
use hif_backend.Hif.{Operator}
use hif_backend.Hif2sc.Expressions.{
  Value, operand, int_value, unary, binary, member, static_cast, c_cast, when, Alternatives,
  no_alternative, alternative, expression_precedence, Parent, in_expression, in_member, in_when,
  in_c_cast, in_other, need_wrap_paren, prec_cast, prec_when,
}
use hif_backend.Hif2sc.Expressions.Printing.{
  visit_value, visit_alternatives, parenthesised, spaced, expression_wrap,
}
use hif_backend.Hif2sc.Expressions.Grammar.{
  Tree, name, prefix, infix_of, subscript, static_cast_of, cast_of, cast_keyword, conditional,
  Reads, atom, index, new_cast, old_cast, before, between, choose, at_least, glued,
}
use hif_backend.Hif2sc.Expressions.Precedence.{
  level_of, required, Proper, clash, required-top, need_wrap_paren-required, Tight,
  need_wrap_paren-Tight, need_wrap_paren-unary, level_of-unary,
}
use hif_backend.Hif2sc.Expressions.Operators.{is_infix, is_prefix, symbol_of, infix-row, prefix-row}
use hif_backend.Hif2sc.Expressions.Derivation.{
  is_gt_ge, compares_down, is_int, is_subscripted, value_precedence, clash-compares, glued-append,
  glued-bracket, glued-paren, glued-s, glued-r, or-first, need_wrap_paren-member,
  need_wrap_paren-min, and-no, required-operand, clash-when, parenthesised-Reads, glued-wrapped,
}

-- `int_tree` is the tree of the text of a constant.
module _ (int_text : ℤ → Bytes) (int_tree : ℤ → Tree) where
  -- The tree of C++ that a value stands for: the operators and operands as they stand in it.
  unfoldable mutual
    pub tree : Value → Tree
    tree (operand t) = name t
    tree (int_value z) = int_tree z
    tree (unary s op v) = prefix (symbol_of s op) (tree v)
    tree (binary s op v w) = infix_of (symbol_of s op) (tree v) (tree w)
    tree (member p i) = subscript (tree p) (tree i)
    tree (static_cast is_address type v) = static_cast_of is_address type (tree v)
    tree (c_cast type v) = cast_of type (tree v)
    tree (when alts d) = choices alts (tree d)

    pub choices : Alternatives → Tree → Tree
    choices no_alternative d = d
    choices (alternative c v alts) d = conditional (tree c) (tree v) (choices alts d)

  -- How the text of a value begins below an operator in front.
  abbrev pub lead : Value → Bytes
  lead (operand t) = t
  lead (int_value z) = int_text z
  lead (unary s op v) = symbol_of s op
  lead (member p i) = lead p
  lead _ = codes ""

  abbrev pub has_alternatives : Alternatives → Bool
  has_alternatives alts = elim alts [ no_alternative ↦ false | _ ↦ true ]

  -- Each operator is one that C++ has, no operator in front is glued to its operand, no second
  -- operand of `>` or `>=` is a comparison by `<` or `<=`, no constant of integers is subscripted,
  -- and a conditional has an alternative.
  module _ (IsName : Bytes → Type 0) where
    unfoldable mutual
      pub IsPlain : Value → Type 0
      IsPlain (operand t) = IsName t
      IsPlain (int_value z) = Unit
      IsPlain (unary s op v) =
          (is_prefix op ≡ true) × (glued (symbol_of s op) (lead v) ≡ false) × IsPlain v
      IsPlain (binary s op v w) =
          (is_infix op ≡ true) × ((is_gt_ge op && compares_down w) ≡ false) × IsPlain v × IsPlain w
      IsPlain (member p i) = (is_int p ≡ false) × IsPlain p × IsPlain i
      IsPlain (static_cast is_address type v) = IsPlain v
      IsPlain (c_cast type v) = IsPlain v
      IsPlain (when alts d) = (has_alternatives alts ≡ true) × ArePlain alts × IsPlain d

      pub ArePlain : Alternatives → Type 0
      ArePlain no_alternative = Unit
      ArePlain (alternative c v alts) = IsPlain c × IsPlain v × ArePlain alts

module _ (int_text : ℤ → Bytes) (int_tree : ℤ → Tree) (left_angular : ℕ) (IsName : Bytes → Type 0)
    (int_Reads : (z : ℤ) → Reads IsName 12 (int_text z) (int_tree z)) where
  -- A place where a value may stand as it is.
  abbrev pub Allowed : Value → Parent → Type 0
  Allowed v parent =
      Proper parent
      × (clash (value_precedence v) parent ≡ false)
      × ((is_int v && is_subscripted parent) ≡ false)

  -- The text of a value at a place.
  abbrev pub Read : Value → Parent → Type 0
  Read v parent =
      (t : Bytes) × (visit_value int_text left_angular v parent ≡ some t)
      × Reads IsName (required parent) t (tree int_text int_tree v)
      × (Tight parent
          → (symbol : Bytes) → glued symbol (lead int_text int_tree v) ≡ false
          → glued symbol t ≡ false)

  abbrev ReadAll : Alternatives → Type 0
  ReadAll alts =
      (t : Bytes) × (visit_alternatives int_text left_angular alts ≡ some t)
      × ((u : Bytes) (c : Tree)
          → Reads IsName 1 u c
          → Reads IsName 1 (t ++ u) (choices int_text int_tree alts c))

  unary-Read :
      (s : Bool) (op : Operator) (v : Value) (parent : Parent)
      → is_prefix op ≡ true
      → glued (symbol_of s op) (lead int_text int_tree v) ≡ false
      → Proper parent
      → Read v (in_expression (expression_precedence s false op) false)
      → Read (unary s op v) parent
  unfolding visit_value tree
  unary-Read s op v parent h g ok (t, e, r, k) =
      let row = prefix-row s op h in
      let wrap : Bool = expression_wrap int_text left_angular s false op parent in
      (
        parenthesised wrap (symbol_of s op ++ t),
        rw (row.4, row.5, row.3, e) refl,
        parenthesised-Reads IsName wrap parent 12 ok
            (before (symbol_of s op) row.2 (k (row.0, refl) (symbol_of s op) g)
              (at_least (omega (arith, level_of-unary _ row.0 row.1)) r))
            (λ n. need_wrap_paren-unary _ parent row.0 row.1 ok (or-first _ _ n)),
        λ tight symbol b.
            glued-wrapped symbol wrap (symbol_of s op ++ t)
              (glued-append symbol (symbol_of s op) t row.2 b),
      )

  binary-Read :
      (s : Bool) (op : Operator) (v w : Value) (parent : Parent)
      → is_infix op ≡ true
      → Proper parent
      → clash (expression_precedence s true op) parent ≡ false
      → Read v (in_expression (expression_precedence s true op) false)
      → Read w (in_expression (expression_precedence s true op) true)
      → Read (binary s op v w) parent
  unfolding visit_value tree
  binary-Read s op v w parent h ok nc (t, e, r, k) (u, f, q, l) =
      let row = infix-row s op h in
      let wrap : Bool = expression_wrap int_text left_angular s true op parent in
      (
        parenthesised wrap (spaced t (symbol_of s op) u),
        rw (row.6, row.7, e, row.5, f) refl,
        parenthesised-Reads IsName wrap parent (level_of (expression_precedence s true op)) ok
            (between (symbol_of s op) row.4 r q)
            (λ n.
              need_wrap_paren-required (expression_precedence s true op) false parent row.0
                (omega (arith, row.1)) row.2 (λ p. absurd (row.3 p)) ok nc (or-first _ _ n)),
        λ tight symbol b.
            rw
              (need_wrap_paren-Tight (expression_precedence s true op) false parent row.0 row.1
                tight)
              (glued-paren symbol _),
      )

  pub Proper-infix :
      (s : Bool) (op : Operator) (second : Bool)
      → is_infix op ≡ true
      → Proper (in_expression (expression_precedence s true op) second)
  Proper-infix s op second h =
      let row = infix-row s op h in (row.0, omega (arith, row.1), λ e. row.1, row.2, row.3)

  Proper-prefix :
      (s : Bool) (op : Operator)
      → is_prefix op ≡ true
      → Proper (in_expression (expression_precedence s false op) false)
  Proper-prefix s op h =
      let row = prefix-row s op h in
      (
        omega (arith, row.0),
        row.1,
        λ e. let wrong : ⊥ = cc in absurd wrong,
        λ e. omega (arith, e, row.0),
        λ e. omega (arith, e, row.0),
      )

  mutual
    unfolding visit_value visit_alternatives tree choices IsPlain ArePlain

    pub visit_value-Read :
        (v : Value) (parent : Parent)
        → IsPlain int_text int_tree IsName v
        → Allowed v parent
        → Read v parent
    visit_value-Read (operand t) parent h a =
        (t, refl, at_least (required-top parent a.0) (atom h), λ tight symbol b. b)
    visit_value-Read (int_value z) parent h a = (
      int_text z,
      refl,
      at_least (required-operand parent a.0 a.2) (int_Reads z),
      λ tight symbol b. b,
    )
    visit_value-Read (unary s op v) parent h a = unary-Read s op v parent h.0 h.1 a.0 (
        visit_value-Read v (in_expression (expression_precedence s false op) false) h.2
          (Proper-prefix s op h.0, refl, and-no (is_int v)))
    visit_value-Read (binary s op v w) parent h a =
        binary-Read s op v w parent h.0 a.0 a.1
          (visit_value-Read v (in_expression (expression_precedence s true op) false) h.2
            (Proper-infix s op false h.0, refl, and-no (is_int v)))
          (visit_value-Read w (in_expression (expression_precedence s true op) true) h.3
            (Proper-infix s op true h.0, clash-compares s op w h.1, and-no (is_int w)))
    visit_value-Read (member p i) parent h a =
        let (t, e, r, k) = visit_value-Read p (in_member true) h.1 (tt, refl, rw h.0 refl) in
        let (u, f, q, l) = visit_value-Read i (in_member false) h.2 (tt, refl, and-no (is_int i)) in
        (
          t ++ codes "[" ++ u ++ codes "]",
          rw (e, f, need_wrap_paren-member parent) refl,
          at_least (required-top parent a.0) (index r (at_least {m = 1} (omega arith) q)),
          λ tight symbol b. glued-bracket symbol t u (codes "]") (k refl symbol b),
        )
    visit_value-Read (static_cast false type v) parent h a =
        let (t, e, r, k) = visit_value-Read v in_other h (tt, refl, and-no (is_int v)) in
        (
          cast_keyword false ++ type ++ codes " >( " ++ t ++ codes " )",
          rw (e, need_wrap_paren-min parent) refl,
          at_least (required-top parent a.0)
              (new_cast false type (at_least {m = 1} (omega arith) r)),
          λ tight symbol b. glued-s symbol _,
        )
    visit_value-Read (static_cast true type v) parent h a =
        let (t, e, r, k) = visit_value-Read v in_other h (tt, refl, and-no (is_int v)) in
        (
          cast_keyword true ++ type ++ codes " >( " ++ t ++ codes " )",
          rw (e, need_wrap_paren-min parent) refl,
          at_least (required-top parent a.0)
              (new_cast true type (at_least {m = 1} (omega arith) r)),
          λ tight symbol b. glued-r symbol _,
        )
    visit_value-Read (c_cast type v) parent h a =
        let (t, e, r, k) = visit_value-Read v in_c_cast h (tt, refl, and-no (is_int v)) in
        let wrap : Bool = need_wrap_paren prec_cast false parent in
        (
          parenthesised wrap (codes "( " ++ type ++ codes ") " ++ t),
          rw e refl,
          parenthesised-Reads IsName wrap parent 12 a.0 (old_cast type r)
              (λ n. need_wrap_paren-unary prec_cast parent (omega arith) (omega arith) a.0 n),
          λ tight symbol b.
              glued-wrapped symbol wrap (codes "( " ++ type ++ codes ") " ++ t)
                (glued-paren symbol (codes " " ++ type ++ codes ") " ++ t)),
        )
    visit_value-Read (when no_alternative d) parent h a = let wrong : ⊥ = cc in absurd wrong
    visit_value-Read (when (alternative c v alts) d) parent h a =
        let (t, e, r) = visit_alternatives-Read (alternative c v alts) h.1 in
        let (u, f, q, l) = visit_value-Read d in_when h.2 (tt, refl, and-no (is_int d)) in
        let wrap : Bool = need_wrap_paren prec_when true parent in
        (
          parenthesised wrap (t ++ u),
          rw (e, f) refl,
          parenthesised-Reads IsName wrap parent 1 a.0
              (r u (tree int_text int_tree d) (at_least (omega arith) q))
              (λ n.
                need_wrap_paren-required prec_when true parent (omega arith) (omega arith)
                  (λ p. omega (arith, p)) (λ p. refl) a.0 (clash-when parent) n),
          λ tight symbol b.
              rw (need_wrap_paren-Tight prec_when true parent (omega arith) (omega arith) tight)
                (glued-paren symbol _),
        )

    visit_alternatives-Read :
        (alts : Alternatives) → ArePlain int_text int_tree IsName alts → ReadAll alts
    visit_alternatives-Read no_alternative h = (codes "", refl, λ u c r. r)
    visit_alternatives-Read (alternative c v alts) h =
        let (t, e, r, k) = visit_value-Read c in_when h.0 (tt, refl, and-no (is_int c)) in
        let (u, f, q, l) = visit_value-Read v in_when h.1 (tt, refl, and-no (is_int v)) in
        let (w, g, s) = visit_alternatives-Read alts h.2 in
        (
          t ++ codes " ? " ++ u ++ codes " : " ++ w,
          rw (e, f, g) refl,
          λ x d y.
              rw (append_assoc (t ++ codes " ? " ++ u ++ codes " : ") w x)
                (choose r (at_least {n = 0} {m = 2} (omega arith) q) (s x d y)),
        )

  -- A plain value is printed, and below an object that is no operator, such as a statement or a
  -- call, its text is an expression of C++ that can stand on the right of an assignment and is of
  -- the tree that the value stands for, with the operators that C++ has for its operators, if that
  -- holds of the constants of integers.
  pub visit_value-Reads :
      (v : Value)
      → IsPlain int_text int_tree IsName v
      → (t : Bytes) × (visit_value int_text left_angular v in_other ≡ some t)
        × Reads IsName 1 t (tree int_text int_tree v)
  visit_value-Reads v h =
      let (t, e, r, k) = visit_value-Read v in_other h (tt, refl, and-no (is_int v)) in (t, e, r)
