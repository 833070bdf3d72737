-- ===== src/Hif2vhdl/ReadOutPorts.antt =====
-- src/hif2vhdl/PreRefine_readOutPorts.cpp: output ports that the architecture reads, which VHDL does
-- not allow. A view is cut down to its ports, its declared signals, its references and its global
-- action; a name stands for what hif-core resolves it to, and the fresh names of hif-core's name
-- table are a parameter.
pub mod References
pub mod Reads
use hif_backend.Prelude.{
  Bool, true, false, ◌&&◌, not, List, [], ◌∷◌, ◌++◌, Option, none, some, Bytes, bytes_eq, codes,
  if◌then◌else◌,
}
use hif_backend.Hif.{Direction, dir_out}

abbrev pub is_out : Direction → Bool
is_out d = elim d [ dir_out ↦ true | _ ↦ false ]

-- A name in the architecture: whether it stands on a left-hand side, and, if it is below a port
-- assignment, whether it is the terminal prefix of its value.
pub record Reference : Type 0 where
  pub name : Bytes
  pub in_left_hand_side : Bool
  pub port_assign : Option Bool

-- `T` are the types and `V` the values of hif-core.
module _ (T V : Type 0) where
  pub record Port : Type 0 where
    pub name : Bytes
    pub direction : Direction
    pub type : T
    pub value : Option V

  pub record Signal : Type 0 where
    pub name : Bytes
    pub type : T
    pub value : Option V

-- An assignment of the global action between two names.
pub record Assignment : Type 0 where
  pub target : Bytes
  pub source : Bytes

module _ (T V : Type 0) where
  -- The contents of a view; the assignments of the global action that the pass adds.
  pub record Contents : Type 0 where
    pub declarations : List (Signal T V)
    pub references : List Reference
    pub global_action : Option (List Assignment)

  pub record View : Type 0 where
    pub is_standard : Bool
    pub ports : List (Port T V)
    pub contents : Contents

-- One round of the loop of _needFix.
unfoldable pub is_read : Reference → Bool
is_read r =
    if r.in_left_hand_side
    then false
    else elim r.port_assign [ none ↦ true | some is_prefix ↦ not is_prefix ]

-- The references of a port, getReferences.
unfoldable pub references_of : Bytes → List Reference → List Reference
references_of name [] = []
references_of name (r ∷ rest) =
    let later = references_of name rest in if bytes_eq r.name name then r ∷ later else later

unfoldable pub need_fix : List Reference → Bool
need_fix [] = false
need_fix (r ∷ rest) = let later = need_fix rest in if is_read r then true else later

-- The references of a port with another name.
unfoldable pub rename_references : Bytes → Bytes → List Reference → List Reference
rename_references name n [] = []
rename_references name n (r ∷ rest) =
    (if bytes_eq r.name name then record r { name = n } else r) ∷ rename_references name n rest

unfoldable pub add_action : Option (List Assignment) → Assignment → Option (List Assignment)
add_action none a = some (a ∷ [])
add_action (some actions) a = some (actions ++ a ∷ [])

module _ (T V : Type 0) (fresh_name : Contents T V → Bytes → Bytes) where
  unfoldable pub do_fix : Port T V → Contents T V → Contents T V
  do_fix p co =
      let n = fresh_name co (codes "sig_" ++ p.name) in
      record {
        declarations = co.declarations ++ record { name = n; type = p.type; value = p.value } ∷ [];
        references = rename_references p.name n co.references;
        global_action = add_action co.global_action (record { target = p.name; source = n });
      }

  unfoldable pub visit_port : Port T V → Contents T V → Contents T V
  visit_port p co =
      if not (is_out p.direction)
      then co
      else if not (need_fix (references_of p.name co.references))
      then co
      else do_fix p co

  unfoldable pub visit_ports : List (Port T V) → Contents T V → Contents T V
  visit_ports [] co = co
  visit_ports (p ∷ rest) co = visit_ports rest (visit_port p co)

  unfoldable pub visit_view : View T V → View T V
  visit_view o = if o.is_standard then o else record o { contents = visit_ports o.ports o.contents }
