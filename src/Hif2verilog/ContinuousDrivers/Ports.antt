-- ===== src/Hif2verilog/ContinuousDrivers/Ports.antt =====
-- src/hif2verilog/VerilogPrinter.cpp: how the ports of a view are told apart.
use hif_backend.Prelude.{
  ℕ, ◌≡◌, refl, sym, ap, ◌∙◌, Bool, true, false, ◌&&◌, ◌||◌, not, List, [], ◌∷◌, ◌++◌, Option, none,
  some, Bytes, is_empty, ◌==◌, All, arith, Bool-cases, inl, inr,
}
use hif_backend.Hif.{Direction, dir_none, dir_in, dir_out, dir_inout}
use hif_backend.Hif2verilog.Literals.{is_unknown_literal}
use hif_backend.Hif2verilog.ContinuousDrivers.{
  Port, Contents, Drivers, member, has_own_value, drive_port, drive_ports, driven_by_others,
  assigned_anywhere, collect_continuously_driven_declarations,
}
use hif_backend.Hif2verilog.ContinuousDrivers.Others.{
  driven_elsewhere, assigned_in, member-driven_by_others, member-assigned_anywhere,
}

or-no : (b c : Bool) → (b || (c && false)) ≡ b
or-no b c = ground arith

or-other : (b c v : Bool) → c ≡ false → (b || (c && v)) ≡ b
or-other b c v h = ground arith

or-swap : (b c : Bool) → (b || c) ≡ (c || (b && true))
or-swap b c = ground arith

and-true : (b : Bool) → (b && true) ≡ b
and-true b = ground arith

eq_sym : (a b : ℕ) → (a == b) ≡ false → (b == a) ≡ false
eq_sym a b h = ground arith

eq_refl : (a : ℕ) → (a == a) ≡ true
eq_refl a = ground arith

or-own : (b c v w : Bool) → b ≡ false → c ≡ true → v ≡ w → (b || (c && v)) ≡ w
or-own b c v w h e f = ground arith

or-both : (b d c v w : Bool) → b ≡ d → c ≡ true → v ≡ w → (b || (c && v)) ≡ (d || w)
or-both b d c v w h e f = ground arith

not-or : (b c : Bool) → not (b || c) ≡ (not b && not c)
not-or b c = ground arith

abbrev pub is_output : Direction → Bool
is_output dir_none = false
is_output dir_in = false
is_output dir_out = true
is_output dir_inout = false

module _ (V : Type 0) (render : V → Bytes) where
  -- No two ports are one declaration.
  abbrev pub Distinct : List (Port V) → Type 0
  Distinct [] = Unit
  Distinct (p ∷ rest) = All (λ q. (p.declaration == q.declaration) ≡ false) rest × Distinct rest

  -- A port driven by its value, and one whose value is its first one only.
  abbrev is_value_driven : List ℕ → List ℕ → Port V → Bool
  is_value_driven driven assigned p =
      has_own_value V render p
      && not (member p.declaration driven)
      && not (member p.declaration assigned)

  abbrev is_initial : List ℕ → List ℕ → Port V → Bool
  is_initial driven assigned p =
      has_own_value V render p && not (member p.declaration driven) && member p.declaration assigned

  member-snoc : (d e : ℕ) (ds : List ℕ) → member d (ds ++ e ∷ []) ≡ (member d ds || d == e)
  member-snoc d e [] = ground arith
  member-snoc d e (f ∷ ds) = ground (arith, member-snoc d e ds)

  -- What a round adds to the three collections.
  drive_port_lem :
      (assigned : List ℕ) (p : Port V) (s : Drivers) (d : ℕ)
      → let t = drive_port V render assigned p s in
        let valued = is_value_driven s.continuously_driven assigned p in
        (member d t.continuously_driven
          ≡ (member d s.continuously_driven || (d == p.declaration && valued)))
        × (member d t.value_driven_ports
            ≡ (member d s.value_driven_ports || (d == p.declaration && valued)))
        × (member d t.initial_value_ports ≡ (
            member d s.initial_value_ports
            || (d == p.declaration && is_initial s.continuously_driven assigned p)))
  unfolding drive_port
  drive_port_lem assigned p s d = elim (Bool-cases (has_own_value V render p)) [
    | inr no_value ↦ rw no_value (sym (or-no _ _), sym (or-no _ _), sym (or-no _ _))
    | inl own ↦ elim (Bool-cases (member p.declaration s.continuously_driven)) [
      | inl continuous ↦ rw (own, continuous) (sym (or-no _ _), sym (or-no _ _), sym (or-no _ _))
      | inr free ↦ elim (Bool-cases (member p.declaration assigned)) [
        | inl procedural ↦
            rw (own, free, procedural)
              (
                sym (or-no _ _),
                sym (or-no _ _),
                member-snoc d p.declaration s.initial_value_ports
                    ∙ ap (λ b. member d s.initial_value_ports || b)
                        (sym (and-true (d == p.declaration))),
              )
        | inr never ↦
            rw (own, free, never)
              (
                or-swap (d == p.declaration) (member d s.continuously_driven),
                member-snoc d p.declaration s.value_driven_ports
                    ∙ ap (λ b. member d s.value_driven_ports || b)
                        (sym (and-true (d == p.declaration))),
                sym (or-no _ _),
              )
      ]
    ]
  ]

  -- The same of a declaration, after some ports and before.
  abbrev Same : ℕ → Drivers → Drivers → Type 0
  Same d t s =
      (member d t.continuously_driven ≡ member d s.continuously_driven)
      × (member d t.value_driven_ports ≡ member d s.value_driven_ports)
      × (member d t.initial_value_ports ≡ member d s.initial_value_ports)

  drive_port-Same :
      (assigned : List ℕ) (p : Port V) (s : Drivers) (d : ℕ)
      → (d == p.declaration) ≡ false
      → Same d (drive_port V render assigned p s) s
  drive_port-Same assigned p s d e =
      let (a, b, c) = drive_port_lem assigned p s d in
      (a ∙ or-other _ _ _ e, b ∙ or-other _ _ _ e, c ∙ or-other _ _ _ e)

  drive_ports-Same :
      (assigned : List ℕ) (ports : List (Port V)) (s : Drivers) (d : ℕ)
      → All (λ q. (d == q.declaration) ≡ false) ports
      → Same d (drive_ports V render assigned ports s) s
  unfolding drive_ports
  drive_ports-Same assigned [] s d h = (refl, refl, refl)
  drive_ports-Same assigned (p ∷ ports) s d (e, h) =
      let (a, b, c) = drive_ports-Same assigned ports (drive_port V render assigned p s) d h in
      let (a', b', c') = drive_port-Same assigned p s d e in (a ∙ a', b ∙ b', c ∙ c')

  -- A port that has not been looked at.
  abbrev Untouched : List ℕ → Drivers → Port V → Type 0
  Untouched driven s p =
      (member p.declaration s.continuously_driven ≡ member p.declaration driven)
      × (member p.declaration s.value_driven_ports ≡ false)
      × (member p.declaration s.initial_value_ports ≡ false)

  -- A port that has been sorted, given what is driven by others and what is assigned.
  abbrev Sorted : List ℕ → List ℕ → Drivers → Port V → Type 0
  Sorted driven assigned t p =
      (member p.declaration t.value_driven_ports ≡ is_value_driven driven assigned p)
      × (member p.declaration t.initial_value_ports ≡ is_initial driven assigned p)
      × (member p.declaration t.continuously_driven
          ≡ (member p.declaration driven || is_value_driven driven assigned p))

  Untouched-drive_port :
      (assigned driven : List ℕ) (p : Port V) (s : Drivers) (rest : List (Port V))
      → All (λ q. (p.declaration == q.declaration) ≡ false) rest
      → All (Untouched driven s) rest
      → All (Untouched driven (drive_port V render assigned p s)) rest
  Untouched-drive_port assigned driven p s [] d h = tt
  Untouched-drive_port assigned driven p s (q ∷ rest) (e, d) ((u, v, w), h) =
      let (a, b, c) =
        drive_port-Same assigned p s q.declaration (eq_sym p.declaration q.declaration e) in
      ((a ∙ u, b ∙ v, c ∙ w), Untouched-drive_port assigned driven p s rest d h)

  drive_port-Sorted :
      (assigned driven : List ℕ) (p : Port V) (s : Drivers)
      → Untouched driven s p
      → Sorted driven assigned (drive_port V render assigned p s) p
  drive_port-Sorted assigned driven p s (u, v, w) =
      let (a, b, c) = drive_port_lem assigned p s p.declaration in
      let own = eq_refl p.declaration in
      let valued =
        ap (λ m. has_own_value V render p && not m && not (member p.declaration assigned)) u in
      let initial =
        ap (λ m. has_own_value V render p && not m && member p.declaration assigned) u in
      (
        b ∙ or-own _ _ _ _ v own valued,
        c ∙ or-own _ _ _ _ w own initial,
        a ∙ or-both _ _ _ _ _ u own valued,
      )

  drive_ports-Sorted :
      (assigned driven : List ℕ) (ports : List (Port V)) (s : Drivers)
      → Distinct ports
      → All (Untouched driven s) ports
      → All (Sorted driven assigned (drive_ports V render assigned ports s)) ports
  unfolding drive_ports
  drive_ports-Sorted assigned driven [] s d h = tt
  drive_ports-Sorted assigned driven (p ∷ ports) s (e, d) (u, h) =
      let next = drive_port V render assigned p s in
      let (a, b, c) = drive_ports-Same assigned ports next p.declaration e in
      let (x, y, z) = drive_port-Sorted assigned driven p s u in
      (
        (b ∙ x, c ∙ y, a ∙ z),
        drive_ports-Sorted assigned driven ports next d
            (Untouched-drive_port assigned driven p s ports e h),
      )

  Untouched-start :
      (driven : List ℕ) (s : Drivers) (ports : List (Port V))
      → s.continuously_driven ≡ driven
      → s.value_driven_ports ≡ []
      → s.initial_value_ports ≡ []
      → All (Untouched driven s) ports
  Untouched-start driven s [] a b c = tt
  Untouched-start driven s (p ∷ ports) a b c = (
    (ap (member p.declaration) a, ap (member p.declaration) b, ap (member p.declaration) c),
    Untouched-start driven s ports a b c,
  )

  -- The port is an output with a value whose spelling is not empty and is known.
  abbrev pub says_value : Port V → Bool
  says_value p = elim p.value [
    | none ↦ false
    | some v ↦
        is_output p.direction && not (is_empty (render v)) && not (is_unknown_literal (render v))
  ]

  own_lem :
      (value : Option V) (direction : Direction)
      → (elim value [
        | none ↦ false
        | some v ↦ elim direction [
          | dir_out ↦ not (is_empty (render v) || is_unknown_literal (render v))
          | _ ↦ false
        ]
      ])
        ≡ (elim value [
          | none ↦ false
          | some v ↦
              is_output direction
              && not (is_empty (render v))
              && not (is_unknown_literal (render v))
        ])
  own_lem none direction = refl
  own_lem (some v) dir_none = refl
  own_lem (some v) dir_in = refl
  own_lem (some v) dir_out = not-or (is_empty (render v)) (is_unknown_literal (render v))
  own_lem (some v) dir_inout = refl

  has_own_value-says_value : (p : Port V) → has_own_value V render p ≡ says_value p
  unfolding has_own_value
  has_own_value-says_value p = own_lem p.value p.direction

  -- A port that has been sorted, given which declarations are driven elsewhere and which are
  -- assigned.
  abbrev pub SortedBy : (ℕ → Bool) → (ℕ → Bool) → Drivers → Port V → Type 0
  SortedBy driven assigned t p =
      let own = says_value p in
      let d = p.declaration in
      (member d t.value_driven_ports ≡ (own && not (driven d) && not (assigned d)))
      × (member d t.initial_value_ports ≡ (own && not (driven d) && assigned d))
      × (member d t.continuously_driven ≡ (driven d || (own && not (driven d) && not (assigned d))))

  Sorted-by :
      (driven assigned : List ℕ) (f g : ℕ → Bool) (t : Drivers) (ports : List (Port V))
      → ((d : ℕ) → member d driven ≡ f d)
      → ((d : ℕ) → member d assigned ≡ g d)
      → All (Sorted driven assigned t) ports
      → All (SortedBy f g t) ports
  Sorted-by driven assigned f g t [] e h s = tt
  Sorted-by driven assigned f g t (p ∷ ports) e h ((a, b, c), s) =
      let given = has_own_value V render p in
      let own = says_value p in
      let says = has_own_value-says_value p in
      let d = p.declaration in
      let valued : (given && not (member d driven) && not (member d assigned))
          ≡ (own && not (f d) && not (g d)) =
        rw (says, e d, h d) refl in
      let initial : (given && not (member d driven) && member d assigned)
          ≡ (own && not (f d) && g d) =
        rw (says, e d, h d) refl in
      let continuous : (member d driven
            || (given && not (member d driven) && not (member d assigned)))
          ≡ (f d || (own && not (f d) && not (g d))) =
        rw (says, e d, h d) refl in
      ((a ∙ valued, b ∙ initial, c ∙ continuous), Sorted-by driven assigned f g t ports e h s)

  -- If no two ports of a view are one declaration, then, exactly, a port has its value printed as
  -- a continuous assignment if it is an output with a value whose spelling is not empty and is
  -- known, no global action and no output or inout of an instance drives it and nothing assigns
  -- it; it has its value printed as an initial assignment if it is such an output, no global
  -- action and no instance drives it and something assigns it; and it counts as continuously
  -- driven if a global action or an instance drives it or it is one of the first kind.
  pub collect-Sorted :
      (contents : Contents) (ports : List (Port V))
      → Distinct ports
      → All
          (SortedBy (driven_elsewhere contents) (assigned_in contents) (
            collect_continuously_driven_declarations V render
              (record { contents = some contents; entity = some ports })))
          ports
  unfolding collect_continuously_driven_declarations
  collect-Sorted contents ports d =
      let others = driven_by_others V render contents in
      let assigned = assigned_anywhere contents.assigns [] in
      Sorted-by others assigned (driven_elsewhere contents) (assigned_in contents) _ ports
        (member-driven_by_others V render contents) (member-assigned_anywhere contents)
        (drive_ports-Sorted assigned others ports
          (record {
            continuously_driven = others;
            value_driven_ports = [];
            initial_value_ports = [];
          })
          d (Untouched-start others _ ports refl refl refl))
