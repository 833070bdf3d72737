-- ===== src/Hif2verilog/ClockedProcess/Semantics.antt =====
-- What a process does at an event, as VHDL and as Verilog define it: the meaning against which the
-- pass is judged. Values are numbers, 1 and 0 for the two levels of a clock or a reset.
use Prim.Native.Nat.{ℕ}
use hif_backend.Prelude.{
  Bool, false, ◌&&◌, ◌||◌, not, List, [], ◌∷◌, Bytes, codes, bytes_eq, any, ◌==◌, if◌then◌else◌,
}
use hif_backend.Hif2verilog.ClockedProcess.{
  Value, literal, identifier, function_call, Values, no_values, values, Action, assign, if_action,
  other_action, Actions, no_actions, actions, Alts, no_alts, alts, StateTable,
}

-- The values of all declarations.
abbrev pub Env : Type 0
Env = ℕ → ℕ

abbrev pub changed : Env → Env → ℕ → Bool
changed old new d = not (old d == new d)

abbrev pub rose : Env → Env → ℕ → Bool
rose old new d = changed old new d && new d == 1

abbrev pub fell : Env → Env → ℕ → Bool
fell old new d = changed old new d && new d == 0

abbrev pub of_bool : Bool → ℕ
of_bool b = if b then 1 else 0

abbrev pub update : Env → ℕ → ℕ → Env
update e t v x = if x == t then v else e x

-- Some declaration of the expression satisfies a test.
unfoldable mutual
  pub any_read : (ℕ → Bool) → Value → Bool
  any_read test (literal n) = false
  any_read test (identifier d) = test d
  any_read test (function_call f vs) = any_read_of test vs

  pub any_read_of : (ℕ → Bool) → Values → Bool
  any_read_of test no_values = false
  any_read_of test (values v vs) = any_read test v || any_read_of test vs

-- A sequence of events, each what the rest of the design does to the values.
unfoldable pub run : (Env → Env → Env) → List (Env → Env) → Env → Env
run step [] e = e
run step (event ∷ events) e = run step events (step e (event e))

-- `apply` gives the functions other than the three that ask for the event, `perform` what an action
-- other than an assignment or an if does with the values that it reads.
module _ (apply : Bytes → List ℕ → ℕ) (perform : List ℕ → Env → Env) where
  -- The value of an expression when the process runs, `old` being the values before the event.
  unfoldable mutual
    pub eval : Env → Env → Value → ℕ
    eval old new (literal n) = n
    eval old new (identifier d) = new d
    eval old new (function_call f vs) =
        if bytes_eq f (codes "hif_vhdl_event")
        then of_bool (asks (changed old new) vs)
        else if bytes_eq f (codes "hif_vhdl_rising_edge")
        then of_bool (asks (rose old new) vs)
        else if bytes_eq f (codes "hif_vhdl_falling_edge")
        then of_bool (asks (fell old new) vs)
        else apply f (evals old new vs)

    pub evals : Env → Env → Values → List ℕ
    evals old new no_values = []
    evals old new (values v vs) = eval old new v ∷ evals old new vs

    -- The event functions are asked about the signal that is their argument.
    pub asks : (ℕ → Bool) → Values → Bool
    asks event no_values = false
    asks event (values v vs) = asks_of event v

    pub asks_of : (ℕ → Bool) → Value → Bool
    asks_of event (literal n) = false
    asks_of event (identifier d) = event d
    asks_of event (function_call f vs) = false

  -- Signals are read as they were when the process woke, `new`, and written for later, `out`.
  unfoldable mutual
    pub exec_action : Env → Env → Env → Action → Env
    exec_action old new out (assign t v) = update out t (eval old new v)
    exec_action old new out (if_action others defaults) =
        let rest = exec old new out defaults in exec_alts old new out others rest
    exec_action old new out (other_action vs) = perform (evals old new vs) out

    pub exec : Env → Env → Env → Actions → Env
    exec old new out no_actions = out
    exec old new out (actions a acts) =
        let next = exec_action old new out a in exec old new next acts

    pub exec_alts : Env → Env → Env → Alts → Env → Env
    exec_alts old new out no_alts rest = rest
    exec_alts old new out (alts c acts others) rest =
        let taken = exec old new out acts in
        let skipped = exec_alts old new out others rest in
        if eval old new c == 0 then skipped else taken

  -- One event, in VHDL: a process wakes when something in its sensitivity list changes.
  unfoldable pub vhdl_step : StateTable → Env → Env → Env
  vhdl_step o old new =
      let ran = exec old new new o.front in
      if any (any_read (changed old new)) o.sensitivity then ran else new

  -- One event, in Verilog: `always @( levels, posedge ..., negedge ... )`.
  unfoldable pub verilog_step : StateTable → Env → Env → Env
  verilog_step o old new =
      let ran = exec old new new o.front in
      if any (any_read (changed old new)) o.sensitivity
        || any (any_read (rose old new)) o.sensitivity_pos
        || any (any_read (fell old new)) o.sensitivity_neg
      then ran
      else new
