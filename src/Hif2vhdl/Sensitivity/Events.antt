-- ===== src/Hif2vhdl/Sensitivity/Events.antt =====
-- When a process runs, before and behind the pass of src/hif2vhdl/VhdlPreRefine_misc.cpp.
use hif_backend.Prelude.{
  ℕ, Bool, false, ◌&&◌, ◌||◌, not, List, [], ◌∷◌, ◌++◌, Option, none, some, ◌==◌, if◌then◌else◌,
}
use hif_backend.Hif2vhdl.Sensitivity.{
  Condition, identifier, op_not_of, op_bnot_of, boolean_cast, hif_vhdl_event, op_and_of, op_or_of,
  Body, plain, wrapped, chained, StateTable,
}

-- The change of a signal, with the levels of all signals behind it.
pub record Event : Type 0 where
  pub changed : ℕ
  pub level : ℕ → Bool

abbrev pub holds : Event → Condition → Bool
holds e (identifier s) = e.level s
holds e (op_not_of c) = not (holds e c)
holds e (op_bnot_of c) = not (holds e c)
holds e (boolean_cast c) = holds e c
holds e (hif_vhdl_event s) = e.changed == s
holds e (op_and_of c d) = holds e c && holds e d
holds e (op_or_of c d) = holds e c || holds e d

abbrev pub holds_if_any : Event → Option Condition → Bool
holds_if_any e none = false
holds_if_any e (some c) = holds e c

abbrev pub member : ℕ → List ℕ → Bool
member s [] = false
member s (t ∷ ts) = s == t || member s ts

-- Whether a change wakes a process: a change of a signal of the list, or its listed edge.
abbrev pub wakes : {B : Type 0} → Event → StateTable B → Bool
wakes e o =
    member e.changed o.sensitivity
    || member e.changed o.sensitivity_pos && e.level e.changed
    || member e.changed o.sensitivity_neg && not (e.level e.changed)

-- The actions that a body runs; `test` evaluates the conditions of hif-core.
module _ {A C : Type 0} (test : C → Event → Bool) (e : Event) where
  abbrev pub runs : Body A C → List A
  runs (plain actions) = actions
  runs (wrapped c actions) = if holds_if_any e c then actions else []
  runs (chained c actions d others rest) =
      (if test c e then actions else if holds_if_any e d then others else []) ++ rest

  abbrev pub executed : StateTable (Body A C) → List A
  executed o = if wakes e o then runs o.body else []
