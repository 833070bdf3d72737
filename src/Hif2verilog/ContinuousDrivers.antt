-- ===== src/Hif2verilog/ContinuousDrivers.antt =====
-- src/hif2verilog/VerilogPrinter.cpp: collectContinuouslyDrivenDeclarations and
-- isContinuouslyDriven, which decide what is a net, and which ports have their value printed as a
-- continuous or as an initial assignment. A declaration is a number, and the expressions are cut
-- down to the declaration of their terminal prefix; `render` prints a value.
pub mod Others
pub mod Ports
use hif_backend.Prelude.{
  ℕ, Bool, true, false, ◌&&◌, ◌||◌, not, List, [], ◌∷◌, ◌++◌, Option, none, some, Bytes, ◌==◌,
  is_empty, if◌then◌else◌,
}
use hif_backend.Hif.{Direction, dir_out, dir_inout}
use hif_backend.Hif2verilog.Literals.{is_unknown_literal}

-- The terminal prefix of an expression: whether it is a name, and the data declaration of that.
pub record Prefix : Type 0 where
  pub is_identifier : Bool
  pub declaration : Option ℕ

-- The formal is that of a port, or it cannot be resolved.
pub record PortAssign : Type 0 where
  pub formal : Option Direction
  pub value : Option Prefix

-- An action of the global action is an assignment with this target or something else.
pub data Action : Type 0 where
  assign : Prefix → Action
  other : Action

module _ (V : Type 0) where
  pub record Port : Type 0 where
    pub declaration : ℕ
    pub direction : Direction
    pub value : Option V

-- The contents with all their instances and with the targets of all their assignments.
pub record Contents : Type 0 where
  pub global_action : Option (List Action)
  pub instances : List (List PortAssign)
  pub assigns : List Prefix

module _ (V : Type 0) where
  pub record View : Type 0 where
    pub contents : Option Contents
    pub entity : Option (List (Port V))

-- The members of the printer that the function fills; the first one is a set.
pub record Drivers : Type 0 where
  pub continuously_driven : List ℕ
  pub value_driven_ports : List ℕ
  pub initial_value_ports : List ℕ

abbrev pub member : ℕ → List ℕ → Bool
member d [] = false
member d (e ∷ rest) = d == e || member d rest

-- The declaration that an expression names, if it names one.
unfoldable pub named : Prefix → Option ℕ
named p = if not p.is_identifier then none else p.declaration

unfoldable pub insert_named : Prefix → List ℕ → List ℕ
insert_named p set = elim (named p) [ none ↦ set | some d ↦ d ∷ set ]

unfoldable pub drive_actions : List Action → List ℕ → List ℕ
drive_actions [] set = set
drive_actions (assign target ∷ rest) set = drive_actions rest (insert_named target set)
drive_actions (other ∷ rest) set = drive_actions rest set

unfoldable pub is_driving : Direction → Bool
is_driving d = elim d [ dir_out ↦ true | dir_inout ↦ true | _ ↦ false ]

unfoldable pub drive_port_assign : PortAssign → List ℕ → List ℕ
drive_port_assign pa set = elim pa.formal [
  | none ↦ set
  | some direction ↦ elim pa.value [
    | none ↦ set
    | some actual ↦ if not (is_driving direction) then set else insert_named actual set
  ]
]

unfoldable pub drive_instance : List PortAssign → List ℕ → List ℕ
drive_instance [] set = set
drive_instance (pa ∷ rest) set = drive_instance rest (drive_port_assign pa set)

unfoldable pub drive_instances : List (List PortAssign) → List ℕ → List ℕ
drive_instances [] set = set
drive_instances (i ∷ rest) set = drive_instances rest (drive_instance i set)

unfoldable pub assigned_anywhere : List Prefix → List ℕ → List ℕ
assigned_anywhere [] set = set
assigned_anywhere (target ∷ rest) set = assigned_anywhere rest (insert_named target set)

module _ (V : Type 0) (render : V → Bytes) where
  -- The port is an output with a value that says something.
  unfoldable pub has_own_value : Port V → Bool
  has_own_value port = elim port.value [
    | none ↦ false
    | some v ↦ elim port.direction [
      | dir_out ↦ not (is_empty (render v) || is_unknown_literal (render v))
      | _ ↦ false
    ]
  ]

  -- The body of the loop over the ports.
  unfoldable pub drive_port : List ℕ → Port V → Drivers → Drivers
  drive_port assigned port s =
      if not (has_own_value port)
      then s
      else if member port.declaration s.continuously_driven
      then s
      else if member port.declaration assigned
      then record s { initial_value_ports = s.initial_value_ports ++ port.declaration ∷ [] }
      else record s {
        continuously_driven = port.declaration ∷ s.continuously_driven;
        value_driven_ports = s.value_driven_ports ++ port.declaration ∷ [];
      }

  unfoldable pub drive_ports : List ℕ → List (Port V) → Drivers → Drivers
  drive_ports assigned [] s = s
  drive_ports assigned (p ∷ rest) s = drive_ports assigned rest (drive_port assigned p s)

  abbrev cleared : List ℕ → Drivers
  cleared set = record {
    continuously_driven = set;
    value_driven_ports = [];
    initial_value_ports = [];
  }

  -- The first two drivers.
  unfoldable pub driven_by_others : Contents → List ℕ
  driven_by_others contents = elim contents.global_action [
    | none ↦ drive_instances contents.instances []
    | some actions ↦ drive_instances contents.instances (drive_actions actions [])
  ]

  unfoldable pub collect_continuously_driven_declarations : View V → Drivers
  collect_continuously_driven_declarations view = elim view.contents [
    | none ↦ cleared []
    | some contents ↦ elim view.entity [
      | none ↦ cleared (driven_by_others contents)
      | some ports ↦
          drive_ports (assigned_anywhere contents.assigns []) ports
            (cleared (driven_by_others contents))
    ]
  ]

unfoldable pub is_continuously_driven : Drivers → Option ℕ → Bool
is_continuously_driven s none = false
is_continuously_driven s (some data_declaration) = member data_declaration s.continuously_driven
