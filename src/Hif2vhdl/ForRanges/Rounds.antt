-- ===== src/Hif2vhdl/ForRanges/Rounds.antt =====
-- src/hif2vhdl/VhdlPreRefine_misc.cpp: a loop that counts in ones, and the loop over a range that
-- visitFor makes of it.
use hif_backend.Prelude.{
  ℕ, zero, suc, ◌≡◌, refl, sym, Bool, false, List, Option, some, Bytes, codes, bytes_eq, ◌∙◌, ap,
  Bool-cases, inl, inr,
}
use hif_backend.Prelude.Int.{ℤ}
use hif_backend.Hif2vhdl.ForRanges.{Value, Action, For, visit_for}
use hif_backend.Hif2vhdl.ForRanges.Runs.{
  Machine, IsMachine, next, span, eval, exec, declare, order, within, while_loop, while_loop-false,
  while_loop-true, for_range, run, run_range, next_span, within-span_zero, within-span_suc,
}
use hif_backend.Hif2vhdl.ForRanges.Iterations.{
  bytes_eq-longer, declarations, Form, plain, supported, index, actions, steps, test, counting_loop,
  range_loop, visit_for-counting,
}

module _ {V S : Type 0} (m : Machine V S) (laws : IsMachine m) (name : Bytes) (up : Bool)
    (left bound : Value V) (body : List (Action V S)) where
  -- The body of a loop leaves the index alone, and one that counts another variable than the one of
  -- the body begins where that one does.
  abbrev pub KeepsIndex : Form V → Type 0
  KeepsIndex plain = (s : m.State) → m.get name (exec m body s) ≡ m.get name s
  KeepsIndex (supported fresh first) =
      let n = index name (supported fresh first) in
      ((z : ℤ) (s : m.State) → exec m body (m.set n z s) ≡ m.set n z (exec m body s))
      × ((s : m.State) → eval m first (m.set name (eval m left s) s) ≡ eval m left s)

  -- And the bound is that of the first round in all of them.
  abbrev pub KeepsBound : Form V → Type 0
  KeepsBound form =
      ((z : ℤ) (s : m.State) → eval m bound (m.set name z s) ≡ eval m bound s)
      × ((z : ℤ) (s : m.State) → eval m bound (m.set (index name form) z s) ≡ eval m bound s)
      × ((s : m.State) → eval m bound (exec m body s) ≡ eval m bound s)

  one_round :
      (form : Form V) (i y : ℤ) (t : m.State)
      → KeepsIndex form
      → (x : ℤ) × (exec m
            (steps name up form)
            (exec m (actions name form body) (m.set (index name form) i (m.set name y t)))
          ≡ m.set (index name form) (next up i) (m.set name x (exec m body (m.set name i t))))
  unfolding exec eval
  one_round plain i y t k =
      let u = exec m body (m.set name i t) in
      (
        i,
        ap (λ w. exec m (steps name up plain) (exec m body w)) (laws.set-set name y i t)
            ∙ ap (λ z. m.set name z u) (laws.apply-step up (m.get name u))
            ∙ ap (λ z. m.set name (next up z) u) (k (m.set name i t) ∙ laws.get-set name i t)
            ∙ sym (laws.set-set name i (next up i) u),
      )
  one_round (supported fresh first) i y t k =
      let n = index name (supported fresh first) in
      let u = exec m body (m.set name i t) in
      let e : bytes_eq name n ≡ false = bytes_eq-longer name (codes "hif_support") fresh 95 in
      let started = m.set n i (m.set name y t) in
      let assigned : m.set name (m.get n started) started ≡ m.set n i (m.set name i t) =
        ap (λ z. m.set name z started) (laws.get-set n i (m.set name y t))
        ∙ laws.set-apart name n i i (m.set name y t) e
        ∙ ap (m.set n i) (laws.set-set name y i t) in
      let ended = m.set n i u in
      (
        m.get name u,
        ap (λ w. exec m (steps name up (supported fresh first)) (exec m body w)) assigned
            ∙ ap (exec m (steps name up (supported fresh first))) (k.0 i (m.set name i t))
            ∙ ap (λ z. m.set n z ended) (laws.apply-step up (m.get n ended))
            ∙ ap (λ z. m.set n (next up z) ended) (laws.get-set n i u)
            ∙ laws.set-set n i (next up i) u
            ∙ ap (m.set n (next up i)) (sym (laws.set-get name u)),
      )

  tested :
      (form : Form V) (i y r : ℤ) (t : m.State)
      → KeepsBound form
      → eval m bound t ≡ r
      → m.is_true (eval m (test name up form bound) (m.set (index name form) i (m.set name y t)))
        ≡ within up i r
  unfolding eval
  tested form i y r t b f =
      let s = m.set (index name form) i (m.set name y t) in
      ap (λ z. m.is_true (m.apply (order up) z (eval m bound s)))
        (laws.get-set (index name form) i (m.set name y t))
      ∙ ap (λ z. m.is_true (m.apply (order up) i z)) (b.1 i (m.set name y t) ∙ b.0 y t ∙ f)
      ∙ laws.apply-order up i r

  while_loop-rounds :
      (form : Form V) (n : ℕ) (i y r : ℤ) (t : m.State)
      → KeepsIndex form
      → KeepsBound form
      → span up i r ≡ n
      → eval m bound t ≡ r
      → (z x : ℤ) × (while_loop m
            (suc n)
            (test name up form bound)
            (actions name form body)
            (steps name up form)
            (m.set (index name form) i (m.set name y t))
          ≡ some (m.set (index name form) z (m.set name x (for_range m n up name i body t))))
  unfolding for_range
  while_loop-rounds form zero i y r t k b e f =
      (i, y, while_loop-false m zero _ _ _ _ (tested form i y r t b f ∙ within-span_zero up i r e))
  while_loop-rounds form (suc n) i y r t k b e f =
      let (x, turned) = one_round form i y t k in
      let t' = exec m body (m.set name i t) in
      let kept = b.2 (m.set name i t) ∙ b.0 i t ∙ f in
      let (z, x', rest) =
        while_loop-rounds form n (next up i) x r t' k b (next_span up i r n e) kept in
      (
        z,
        x',
        while_loop-true m (suc n) _ _ _ _ (tested form i y r t b f ∙ within-span_suc up i r n e)
            ∙ ap
                (while_loop m (suc n) (test name up form bound) (actions name form body)
                  (steps name up form))
                turned
            ∙ rest,
      )

  begun :
      (form : Form V) (s : m.State)
      → KeepsIndex form
      → declare m (declarations name form left) s
        ≡ m.set (index name form) (eval m left s) (m.set name (eval m left s) s)
  unfolding declare
  begun plain s k = sym (laws.set-set name (eval m left s) (eval m left s) s)
  begun (supported fresh first) s k =
      let t = m.set name (eval m left s) s in
      ap (λ z. m.set (index name (supported fresh first)) z t) (k.1 s)

  run-range :
      (l r : Value V)
      → ((s : m.State) → eval m l s ≡ eval m left s)
      → ((s : m.State) → eval m r s ≡ eval m bound s)
      → (n : ℕ) (s : m.State)
      → run m n (range_loop name up left l r body) s
        ≡ some
            (for_range m (span up (eval m left s) (eval m bound s)) up name (eval m left s) body s)
  unfolding run run_range
  run-range l r el er n s = elim (Bool-cases up) [
    | inl e ↦ rw (e, el s, er s) refl
    | inr e ↦ rw (e, el s, er s) refl
  ]

  -- A loop that counts up or down in ones, its variable or from the same first value another one
  -- that its body does not use, and that keeps the index and the bound in its rounds, is
  -- translated if hif-core types its bounds and leaves their values; on integers without bounds it
  -- ends, and behind it the loop over the range does what it did, but for the index and the
  -- variable of the loop.
  pub visit_for-runs :
      (as_bound : Option (Value V) → Option (Value V)) (form : Form V) (l r : Value V)
      → as_bound (some left) ≡ some l
      → as_bound (some bound) ≡ some r
      → ((s : m.State) → eval m l s ≡ eval m left s)
      → ((s : m.State) → eval m r s ≡ eval m bound s)
      → KeepsIndex form
      → KeepsBound form
      → (s : m.State)
      → (translated : For V S) × (visit_for as_bound (counting_loop name up form left bound body)
          ≡ some translated)
        × (fuel : ℕ) × (end : m.State) × (z x : ℤ) × (run m fuel
              (counting_loop name up form left bound body)
              s
            ≡ some (m.set (index name form) z (m.set name x end)))
        × ((n : ℕ) → run m n translated s ≡ some end)
  unfolding run exec
  visit_for-runs as_bound form l r bl br el er k b s =
      let first = eval m left s in
      let count = span up first (eval m bound s) in
      let (z, x, e) = while_loop-rounds form count first first (eval m bound s) s k b refl refl in
      (
        range_loop name up left l r body,
        visit_for-counting name as_bound up form left bound l r body bl br,
        suc count,
        for_range m count up name first body s,
        z,
        x,
        ap
              (while_loop m (suc count) (test name up form bound) (actions name form body)
                (steps name up form))
              (begun form s k)
            ∙ e,
        λ n. run-range l r el er n s,
      )
