-- ===== src/Hif2verilog/Timescale/Directive.antt =====
-- src/hif2verilog/VerilogPrinter.cpp: the unit that a directive declares against those of the
-- delays that it is for.
use mathlib.Core.Path.{subst}
use hif_backend.Prelude.{
  ℕ, zero, suc, ◌*◌, ◌≤◌, ◌≡◌, ◌⊎◌, inl, inr, refl, sym, ap, ◌∙◌, Bool, true, false, List, [], ◌∷◌,
  ◌++◌, none, ltb, leb, if◌then◌else◌, codes, decimal, arith, All, Bool-cases,
}
use hif_backend.Hif2verilog.Timescale.Delays.{IsDelay, In, In-cons, IsDelay-In, In-IsDelay}
use hif_backend.Hif2verilog.Timescale.{
  TimeUnit, time_fs, time_ps, time_ns, time_us, time_ms, time_sec, time_min, time_hr,
  time_unit_to_verilog, TimeValue, Value, View, Timescale, absolute, finer, finest, usable,
  choose_unit, choose_precision, recorded, delays, resolve_timescale, timescale_for,
  print_timescale_directive,
}

-- The units from the finest on, and how many femtoseconds each has.
abbrev pub position : TimeUnit → ℕ
position time_fs = 0
position time_ps = 1
position time_ns = 2
position time_us = 3
position time_ms = 4
position time_sec = 5
position time_min = 6
position time_hr = 7

abbrev pub scale : ℕ → ℕ
scale zero = 1
scale (suc n) = (if ltb n 5 then 1000 else 60) * scale n

abbrev pub femtoseconds : TimeUnit → ℕ
femtoseconds u = scale (position u)

-- A unit is a whole number of another one.
abbrev pub Divides : TimeUnit → TimeUnit → Type 0
Divides u v = (k : ℕ) × (femtoseconds v ≡ k * femtoseconds u)

scale-Divides : (m n : ℕ) → m ≤ n → (k : ℕ) × (scale n ≡ k * scale m)
scale-Divides m zero le = let e : m ≡ 0 = omega arith in (1, rw e refl)
scale-Divides m (suc n) le = elim (Bool-cases (leb m n)) [
  | inl below ↦
      let (k, e) = scale-Divides m n (ground arith) in
      ((if ltb n 5 then 1000 else 60) * k, grind (arith, e))
  | inr above ↦ let same : m ≡ suc n = ground arith in (1, rw same (omega arith))
]

-- The units of some times hold this one.
abbrev pub Among : {Real : Type 0} → TimeUnit → List (TimeValue Real) → Type 0
Among u [] = ⊥
Among u (t ∷ ts) = (u ≡ t.unit) ⊎ Among u ts

print-unnamed :
    (r : Timescale)
    → r.valid ≡ true
    → r.unit_value ≡ 1
    → time_unit_to_verilog r.unit ≡ []
    → time_unit_to_verilog r.precision ≡ []
    → r.precision_value ≡ 1
    → print_timescale_directive r ≡ codes "`timescale 1 / 1" ++ 10 ∷ 10 ∷ []
unfolding print_timescale_directive decimal
print-unnamed r v n u p q = rw (v, n, u, p, q) refl

module _ (Real : Type 0) (at_least : Real → ℕ → Bool) (rank : TimeUnit → ℕ) where
  finer_lem :
      (a b : TimeUnit)
      → (rank (finer Real at_least rank a b) ≤ rank a)
        × (rank (finer Real at_least rank a b) ≤ rank b)
  unfolding finer
  finer_lem a b = elim (Bool-cases (ltb (rank b) (rank a))) [
    | inl less ↦ ground arith
    | inr more ↦ ground arith
  ]

  finest_lem :
      (best : TimeUnit) (ts : List (TimeValue Real))
      → (rank (finest Real at_least rank best ts) ≤ rank best)
        × All (λ t. rank (finest Real at_least rank best ts) ≤ rank t.unit) ts
  unfolding finest
  finest_lem best [] = (omega arith, tt)
  finest_lem best (t ∷ ts) =
      let (first, others) = finest_lem (finer Real at_least rank best t.unit) ts in
      let (left, right) = finer_lem best t.unit in
      (omega (arith, first, left), (omega (arith, first, right), others))

  pick_second : (a b : TimeUnit) (c : Bool) → c ≡ true → (if c then b else a) ≡ b
  pick_second a b true h = refl
  pick_second a b false h = cc

  pick_first : (a b : TimeUnit) (c : Bool) → c ≡ false → (if c then b else a) ≡ a
  pick_first a b true h = cc
  pick_first a b false h = refl

  finest-Among :
      (best : TimeUnit) (ts : List (TimeValue Real))
      → (finest Real at_least rank best ts ≡ best) ⊎ Among (finest Real at_least rank best ts) ts
  unfolding finest finer
  finest-Among best [] = inl refl
  finest-Among best (t ∷ ts) = elim (finest-Among (finer Real at_least rank best t.unit) ts) [
    | inr later ↦ inr (inr later)
    | inl e ↦ elim (Bool-cases (ltb (rank t.unit) (rank best))) [
      | inl less ↦ inr (inl (e ∙ pick_second best t.unit (ltb (rank t.unit) (rank best)) less))
      | inr more ↦ inl (e ∙ pick_first best t.unit (ltb (rank t.unit) (rank best)) more)
    ]
  ]

  choose_unit-finest :
      (view : View Real) (ds : List (Value Real)) (t : TimeValue Real) (ts : List (TimeValue Real))
      → usable Real at_least rank (recorded Real at_least rank view).0 ≡ none
      → absolute Real at_least rank ds ≡ t ∷ ts
      → choose_unit Real at_least rank
          (usable Real at_least rank (recorded Real at_least rank view).0)
          (absolute Real at_least rank ds)
        ≡ (finest Real at_least rank t.unit (t ∷ ts), 1)
  unfolding choose_unit
  choose_unit-finest view ds t ts unrecorded e = rw (unrecorded, e) refl

  Among-In :
      (u : TimeUnit) (ts : List (TimeValue Real))
      → Among u ts
      → (t : TimeValue Real) × In Real at_least rank t ts × (u ≡ t.unit)
  Among-In u [] absurd = elim absurd [ ]
  Among-In u (t ∷ ts) (inl e) = (t, inl refl, e)
  Among-In u (t ∷ ts) (inr later) =
      let (found, among, e) = Among-In u ts later in (found, inr among, e)

  All-In :
      (u : TimeUnit) (ts : List (TimeValue Real))
      → All (λ t. Divides u t.unit) ts
      → (t : TimeValue Real) → In Real at_least rank t ts
      → Divides u t.unit
  All-In u [] h t absurd = elim absurd [ ]
  All-In u (s ∷ ts) (h, hs) t (inl e) = subst (λ v. Divides u v.unit) e h
  All-In u (s ∷ ts) (h, hs) t (inr later) = All-In u ts hs t later

  module _ (ordered : (u v : TimeUnit) → rank u ≤ rank v → position u ≤ position v) where
    All-Divides :
        (u : TimeUnit) (ts : List (TimeValue Real))
        → All (λ t. rank u ≤ rank t.unit) ts
        → All (λ t. Divides u t.unit) ts
    All-Divides u [] h = tt
    All-Divides u (t ∷ ts) (h, hs) =
        (scale-Divides (position u) (position t.unit) (ordered u t.unit h), All-Divides u ts hs)

    timescale_for-Divides :
        (view : View Real) (ds : List (Value Real)) (t : TimeValue Real)
        (ts : List (TimeValue Real))
        → usable Real at_least rank (recorded Real at_least rank view).0 ≡ none
        → absolute Real at_least rank ds ≡ t ∷ ts
        → let r = timescale_for Real at_least rank view ds in
          (r.valid ≡ true)
          × (r.unit_value ≡ 1)
          × Among r.unit (t ∷ ts)
          × All (λ d. Divides r.unit d.unit) (t ∷ ts)
    unfolding timescale_for absolute
    timescale_for-Divides view [] t ts unrecorded e = cc
    timescale_for-Divides view (d ∷ ds) t ts unrecorded e =
        let u = finest Real at_least rank t.unit (t ∷ ts) in
        let member : Among u (t ∷ ts) = elim (finest-Among t.unit (t ∷ ts)) [
          | inl first ↦ inl first
          | inr later ↦ later
        ] in
        let chosen = choose_unit-finest view (d ∷ ds) t ts unrecorded e in
        let unit_is : (timescale_for Real at_least rank view (d ∷ ds)).unit ≡ u =
          ap (λ p. p.0) chosen in
        (
          refl,
          ap (λ p. p.1) chosen,
          subst (λ v. Among v (t ∷ ts)) (sym unit_is) member,
          subst (λ v. All (λ d. Divides v d.unit) (t ∷ ts)) (sym unit_is)
              (All-Divides u (t ∷ ts) (finest_lem t.unit (t ∷ ts)).1),
        )

    listed-Divides :
        (view : View Real) (t : TimeValue Real) (ts : List (TimeValue Real))
        → usable Real at_least rank (recorded Real at_least rank view).0 ≡ none
        → absolute Real at_least rank (delays Real at_least rank view) ≡ t ∷ ts
        → let r = resolve_timescale Real at_least rank view in
          (r.valid ≡ true)
          × (r.unit_value ≡ 1)
          × Among r.unit (t ∷ ts)
          × All (λ d. Divides r.unit d.unit) (t ∷ ts)
    unfolding resolve_timescale
    listed-Divides view t ts unrecorded e =
        timescale_for-Divides view (delays Real at_least rank view) t ts unrecorded e

    -- If hif-core orders the units from the finest on, a view that has an absolute time as the delay
    -- of an assignment or the time of a wait, and no recorded unit that Verilog has a name for, is
    -- printed with a directive of one unit that is the unit of one of these times, and the unit of
    -- each of them is a whole number of it.
    pub resolve_timescale-Divides :
        (view : View Real) (some_delay : TimeValue Real)
        → IsDelay Real at_least rank view some_delay
        → usable Real at_least rank (recorded Real at_least rank view).0 ≡ none
        → let r = resolve_timescale Real at_least rank view in
          (r.valid ≡ true)
          × (r.unit_value ≡ 1)
          × ((t : TimeValue Real) × IsDelay Real at_least rank view t × (r.unit ≡ t.unit))
          × ((t : TimeValue Real) → IsDelay Real at_least rank view t → Divides r.unit t.unit)
    resolve_timescale-Divides view some_delay delay unrecorded =
        let (t, ts, e) =
          In-cons Real at_least rank some_delay
            (absolute Real at_least rank (delays Real at_least rank view))
            (IsDelay-In Real at_least rank view some_delay delay) in
        let (valid, one, member, divides) = listed-Divides view t ts unrecorded e in
        let (found, among, is_unit) = Among-In _ (t ∷ ts) member in
        (
          valid,
          one,
          (
            found,
            In-IsDelay Real at_least rank view found
                (subst (In Real at_least rank found) (sym e) among),
            is_unit,
          ),
          λ u is.
              All-In _ (t ∷ ts) divides u
                (subst (In Real at_least rank u) e (IsDelay-In Real at_least rank view u is)),
        )

    Among-unnamed :
        (u : TimeUnit) (ts : List (TimeValue Real))
        → Among u ts
        → All (λ t. time_unit_to_verilog t.unit ≡ []) ts
        → time_unit_to_verilog u ≡ []
    Among-unnamed u [] absurd h = elim absurd [ ]
    Among-unnamed u (t ∷ ts) (inl e) (h, hs) = ap time_unit_to_verilog e ∙ h
    Among-unnamed u (t ∷ ts) (inr later) (h, hs) = Among-unnamed u ts later hs

    precision-unit :
        (view : View Real) (ds : List (Value Real))
        → usable Real at_least rank (recorded Real at_least rank view).1 ≡ none
        → let r = timescale_for Real at_least rank view ds in
          (r.precision ≡ r.unit) × (r.precision_value ≡ r.unit_value)
    unfolding timescale_for choose_precision
    precision-unit view [] h = (refl, refl)
    precision-unit view (d ∷ ds) h = rw h (refl, refl)

    -- If hif-core orders the units from the finest on, a view that holds an absolute delay, has no
    -- recorded unit and no recorded precision that Verilog has a name for, and whose absolute
    -- delays are all in units that Verilog has no name for, is printed with a directive that names
    -- neither a unit nor a precision.
    directive-unnamed :
        (view : View Real) (t : TimeValue Real) (ts : List (TimeValue Real))
        → usable Real at_least rank (recorded Real at_least rank view).0 ≡ none
        → usable Real at_least rank (recorded Real at_least rank view).1 ≡ none
        → absolute Real at_least rank (delays Real at_least rank view) ≡ t ∷ ts
        → All (λ d. time_unit_to_verilog d.unit ≡ []) (t ∷ ts)
        → print_timescale_directive (resolve_timescale Real at_least rank view)
          ≡ codes "`timescale 1 / 1" ++ 10 ∷ 10 ∷ []
    unfolding resolve_timescale
    directive-unnamed view t ts no_unit no_precision e unnamed =
        let ds = delays Real at_least rank view in
        let (valid, value, member, divides) = timescale_for-Divides view ds t ts no_unit e in
        let (same_unit, same_value) = precision-unit view ds no_precision in
        let unspelled = Among-unnamed _ (t ∷ ts) member unnamed in
        print-unnamed (timescale_for Real at_least rank view ds) valid value unspelled
          (ap time_unit_to_verilog same_unit ∙ unspelled) (same_value ∙ value)
