-- ===== src/Hif2verilog/InoutPorts.antt =====
-- src/hif2verilog/PostRefine_inoutPort.cpp: inout ports that a process assigns, which are given a
-- register to be driven through. A view is cut down to its ports, the declarations, the assignments
-- of its processes and its global action; a name stands for what hif-core resolves it to. The fresh
-- names and the default value of a type are parameters.
pub mod Targets
pub mod Drivers
use hif_backend.Prelude.{
  Bool, true, false, ◌&&◌, not, List, [], ◌∷◌, ◌++◌, Option, none, some, Bytes, bytes_eq, codes,
  is_empty, if◌then◌else◌,
}
use hif_backend.Hif.{Direction, dir_inout}

abbrev pub is_inout : Direction → Bool
is_inout d = elim d [ dir_inout ↦ true | _ ↦ false ]

-- `T` are the types and `V` the values of hif-core.
module _ (T V : Type 0) where
  pub record Port : Type 0 where
    pub name : Bytes
    pub direction : Direction
    pub type : T

  pub record Signal : Type 0 where
    pub name : Bytes
    pub type : T
    pub value : V

-- The left-hand side and the source of an assignment: the terminal prefix of the left-hand side is
-- a name or it is not; what an assignment reads is kept as a list of names.
pub record Assign : Type 0 where
  pub target : Option Bytes
  pub reads : List Bytes
  pub in_state_table : Bool

module _ (T V : Type 0) where
  -- The declarations that the pass appends to, every assignment of the contents but those of the
  -- pass, and the continuous assignments of the pass, as pairs of target and source.
  pub record Contents : Type 0 where
    pub declarations : List (Signal T V)
    pub assigns : List Assign
    pub global_action : Option (List (Bytes × Bytes))

  pub record View : Type 0 where
    pub entity : Option (List (Port T V))
    pub contents : Option Contents

-- Whether an assignment in a process or a subprogram has the port as its target.
unfoldable pub drives : Bytes → Assign → Bool
drives port assign =
    if not assign.in_state_table
    then false
    else elim assign.target [ none ↦ false | some target ↦ bytes_eq target port ]

unfoldable pub collect_procedural_assigns : List Assign → Bytes → List Assign
collect_procedural_assigns [] port = []
collect_procedural_assigns (a ∷ rest) port =
    let later = collect_procedural_assigns rest port in if drives port a then a ∷ later else later

-- The targets of the collected assignments, renamed in place.
unfoldable pub retarget : Bytes → Bytes → List Assign → List Assign
retarget port driver [] = []
retarget port driver (a ∷ rest) =
    (if drives port a then record a { target = some driver } else a) ∷ retarget port driver rest

unfoldable pub add_action :
    Option (List (Bytes × Bytes)) → Bytes × Bytes → Option (List (Bytes × Bytes))
add_action none a = some (a ∷ [])
add_action (some actions) a = some (actions ++ a ∷ [])

module _ (T V : Type 0) (fresh_name : Contents T V → Bytes → Bytes)
    (type_default_value : T → V) where
  -- The body of the loop for a port with a procedural assignment.
  unfoldable pub add_driver : Port T V → Contents T V → Contents T V
  add_driver port contents =
      let driver = fresh_name contents (port.name ++ codes "_drv") in
      record {
        declarations =
            contents.declarations
            ++ record { name = driver; type = port.type; value = type_default_value port.type }
              ∷ [];
        assigns = retarget port.name driver contents.assigns;
        global_action = add_action contents.global_action (port.name, driver);
      }

  unfoldable pub visit_port : Port T V → Contents T V → Contents T V
  visit_port port contents =
      if not (is_inout port.direction)
      then contents
      else if is_empty (collect_procedural_assigns contents.assigns port.name)
      then contents
      else add_driver port contents

  unfoldable pub visit_ports : List (Port T V) → Contents T V → Contents T V
  visit_ports [] contents = contents
  visit_ports (p ∷ rest) contents = visit_ports rest (visit_port p contents)

  unfoldable pub visit_view : View T V → View T V
  visit_view o = elim o.entity [
    | none ↦ o
    | some ports ↦ elim o.contents [
      | none ↦ o
      | some contents ↦ record o { contents = some (visit_ports ports contents) }
    ]
  ]
