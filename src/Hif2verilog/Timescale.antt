-- ===== src/Hif2verilog/Timescale.antt =====
-- src/hif2verilog/VerilogPrinter.cpp: the unit that delays are counted in. A tree of hif-core is cut
-- down to the declarations and the delays that resolveTimescale finds in it. The doubles, the
-- conversion between units and the printing of a value are parameters.
pub mod Delays
pub mod Directive
use hif_backend.Prelude.{
  ℕ, zero, suc, Bool, true, false, ◌&&◌, not, List, [], ◌∷◌, ◌++◌, Option, none, some, Bytes, codes,
  bytes_eq, decimal, ltb, if◌then◌else◌, is_empty,
}

pub data TimeUnit : Type 0 where
  time_fs time_ps time_ns time_us time_ms time_sec time_min time_hr : TimeUnit

unfoldable pub time_unit_to_verilog : TimeUnit → Bytes
time_unit_to_verilog time_fs = codes "fs"
time_unit_to_verilog time_ps = codes "ps"
time_unit_to_verilog time_ns = codes "ns"
time_unit_to_verilog time_us = codes "us"
time_unit_to_verilog time_ms = codes "ms"
time_unit_to_verilog time_sec = codes "s"
time_unit_to_verilog time_min = []
time_unit_to_verilog time_hr = []

unfoldable pub timescale_unit_name : Bytes
timescale_unit_name = codes "hif_verilog_timescale_unit"

unfoldable pub timescale_precision_name : Bytes
timescale_precision_name = codes "hif_verilog_timescale_precision"

module _ (Real : Type 0) where
  pub record TimeValue : Type 0 where
    pub value : Real
    pub unit : TimeUnit

  -- A value of the tree, as far as a delay is looked into: a time, a name, a product and others.
  pub data Value : Type 0 where
    time : TimeValue → Value
    identifier : Bytes → Value
    mult : Value → Value → Value
    other : ℕ → Value

  -- A declaration; the value of a constant is a time or is not.
  pub data Declaration : Type 0 where
    constant : Bytes → Option TimeValue → Declaration
    no_constant : Declaration

  -- The view with the delays of its assignments and the times of its waits, where they have one.
  pub record View : Type 0 where
    pub declarations : List Declaration
    pub assign_delays : List (Option Value)
    pub wait_times : List (Option Value)
    pub system : Option (List Declaration)

pub record Timescale : Type 0 where
  pub valid : Bool
  pub unit : TimeUnit
  pub unit_value : ℕ
  pub precision : TimeUnit
  pub precision_value : ℕ

-- The members of a Timescale that has not been resolved.
abbrev pub unresolved : Timescale
unresolved = record {
  valid = false;
  unit = time_ns;
  unit_value = 1;
  precision = time_ns;
  precision_value = 1;
}

-- `at_least` is the order of doubles to a whole number, and `rank` the order of hif-core's
-- enumeration of units.
module _ (Real : Type 0) (at_least : Real → ℕ → Bool) (rank : TimeUnit → ℕ) where
  unfoldable pub find_time_constant : List (Declaration Real) → Bytes → Option (TimeValue Real)
  find_time_constant [] name = none
  find_time_constant (no_constant ∷ rest) name = find_time_constant rest name
  find_time_constant (constant n value ∷ rest) name =
      let later = find_time_constant rest name in if bytes_eq n name then value else later

  unfoldable pub timescale_factor : Real → ℕ
  timescale_factor value = if at_least value 100 then 100 else if at_least value 10 then 10 else 1

  unfoldable pub given : List (Option (Value Real)) → List (Value Real)
  given [] = []
  given (none ∷ rest) = given rest
  given (some v ∷ rest) = v ∷ given rest

  unfoldable pub absolute : List (Value Real) → List (TimeValue Real)
  absolute [] = []
  absolute (time t ∷ rest) = t ∷ absolute rest
  absolute (identifier n ∷ rest) = absolute rest
  absolute (mult v w ∷ rest) = absolute rest
  absolute (other n ∷ rest) = absolute rest

  -- `std::min` on the enumeration.
  unfoldable pub finer : TimeUnit → TimeUnit → TimeUnit
  finer a b = if ltb (rank b) (rank a) then b else a

  unfoldable pub finest : TimeUnit → List (TimeValue Real) → TimeUnit
  finest best [] = best
  finest best (t ∷ rest) = finest (finer best t.unit) rest

  -- A recorded time whose unit Verilog has.
  unfoldable pub usable : Option (TimeValue Real) → Option (TimeValue Real)
  usable none = none
  usable (some t) = if not (is_empty (time_unit_to_verilog t.unit)) then some t else none

  -- The unit and its factor.
  unfoldable pub choose_unit : Option (TimeValue Real) → List (TimeValue Real) → TimeUnit × ℕ
  choose_unit (some t) delays = (t.unit, timescale_factor t.value)
  choose_unit none [] = (time_ns, 1)
  choose_unit none (t ∷ rest) = (finest t.unit (t ∷ rest), 1)

  unfoldable pub choose_precision : Option (TimeValue Real) → TimeUnit × ℕ → TimeUnit × ℕ
  choose_precision (some t) unit = (t.unit, timescale_factor t.value)
  choose_precision none unit = unit

  -- The constants of the view or, without its unit, both of the system.
  unfoldable pub recorded : View Real → Option (TimeValue Real) × Option (TimeValue Real)
  recorded view = elim (find_time_constant view.declarations timescale_unit_name) [
    | some t ↦ (some t, find_time_constant view.declarations timescale_precision_name)
    | none ↦ elim view.system [
      | none ↦ (none, find_time_constant view.declarations timescale_precision_name)
      | some decls ↦ (
        find_time_constant decls timescale_unit_name,
        find_time_constant decls timescale_precision_name,
      )
    ]
  ]

  unfoldable pub delays : View Real → List (Value Real)
  delays view = given view.assign_delays ++ given view.wait_times

  -- The rest of resolveTimescale, for the delays found: with none it returns at once.
  unfoldable pub timescale_for : View Real → List (Value Real) → Timescale
  timescale_for view [] = unresolved
  timescale_for view (d ∷ rest) =
      let unit = choose_unit (usable (recorded view).0) (absolute (d ∷ rest)) in
      let precision = choose_precision (usable (recorded view).1) unit in
      record {
        valid = true;
        unit = unit.0;
        unit_value = unit.1;
        precision = precision.0;
        precision_value = precision.1;
      }

  unfoldable pub resolve_timescale : View Real → Timescale
  resolve_timescale view = timescale_for view (delays view)

unfoldable pub print_timescale_directive : Timescale → Bytes
print_timescale_directive t =
    if not t.valid
    then []
    else codes "`timescale "
      ++ decimal t.unit_value
      ++ time_unit_to_verilog t.unit
      ++ codes " / "
      ++ decimal t.precision_value
      ++ time_unit_to_verilog t.precision
      ++ 10 ∷ 10 ∷ []

-- `convert` is the number of the given units, each so often, in a time, `show_real` the decimal
-- spelling of a double and `render` the printing of a value.
module _ (Real : Type 0) where
  unfoldable pub get_timescale_scaled_count : Value Real → Option (Value Real)
  get_timescale_scaled_count (mult v w) =
      if is_timescale_unit v then some w else if is_timescale_unit w then some v else none
    where
      is_timescale_unit : Value Real → Bool
      is_timescale_unit (identifier n) = bytes_eq n timescale_unit_name
      is_timescale_unit (time t) = false
      is_timescale_unit (mult a b) = false
      is_timescale_unit (other n) = false
  get_timescale_scaled_count (time t) = none
  get_timescale_scaled_count (identifier n) = none
  get_timescale_scaled_count (other n) = none

  -- The last two branches: an absolute time, and any other shape.
  unfoldable pub render_unscaled :
      (TimeValue Real → TimeUnit → ℕ → Real)
      → (Real → Bytes)
      → (Value Real → Bytes)
      → Timescale
      → Value Real
      → Bytes
  render_unscaled convert show_real render scale (time t) =
      show_real (convert t scale.unit scale.unit_value)
  render_unscaled convert show_real render scale (identifier n) =
      codes "(" ++ render (identifier n) ++ codes ")"
  render_unscaled convert show_real render scale (mult v w) =
      codes "(" ++ render (mult v w) ++ codes ")"
  render_unscaled convert show_real render scale (other n) =
      codes "(" ++ render (other n) ++ codes ")"

  unfoldable pub render_delay :
      (TimeValue Real → TimeUnit → ℕ → Real)
      → (Real → Bytes)
      → (Value Real → Bytes)
      → Timescale
      → Option (Value Real)
      → Bytes
  render_delay convert show_real render scale none = []
  render_delay convert show_real render scale (some d) = elim (get_timescale_scaled_count d) [
    | some count ↦ render count
    | none ↦ render_unscaled convert show_real render scale d
  ]
