-- ===== src/Hif2verilog/ForIndices.antt =====
-- src/hif2verilog/PostRefine_forIndex.cpp: the index that a loop declares, which is moved to the
-- declarations of the process. `T`, `V` and `S` are the types, the values and the other statements
-- of hif-core.
pub mod Hoisting
use hif_backend.Prelude.{List, [], ◌∷◌, ◌++◌, Option, none, some, Bytes, ◌>>=◌}

module _ (T V : Type 0) where
  pub record Declaration : Type 0 where
    pub name : Bytes
    pub type : T
    pub value : Option V

module _ (T V S : Type 0) where
  -- A list of statements: a loop has its declarations, its first assignments and its body, another
  -- statement the statements within it.
  pub data Statements : Type 0 where
    done : Statements
    statement : S → Statements → Statements → Statements
    for_loop : List (Declaration T V) → List (Bytes × V) → Statements → Statements → Statements

module _ (T V : Type 0) where
  -- The first assignments of a loop and the declarations of the process, after its rounds over the
  -- declarations of the loop.
  unfoldable pub move_declarations :
      List (Declaration T V)
      → List (Bytes × V)
      → List (Declaration T V)
      → List (Bytes × V) × List (Declaration T V)
  move_declarations [] init_values declarations = (init_values, declarations)
  move_declarations (d ∷ rest) init_values declarations =
      let started : List (Bytes × V) = elim d.value [
        | none ↦ init_values
        | some v ↦ init_values ++ (d.name, v) ∷ []
      ] in
      move_declarations rest started (declarations ++ record d { value = none } ∷ [])

  -- What visitFor does behind the visit of the parts of a loop: nothing where its assertion ends
  -- the program, else the declarations and first assignments that the loop keeps and the
  -- declarations of the process about it, if there is one.
  unfoldable pub visit_for :
      List (Declaration T V)
      → List (Bytes × V)
      → Option (List (Declaration T V))
      → Option (List (Declaration T V) × List (Bytes × V) × Option (List (Declaration T V)))
  visit_for [] init_values state_table = some ([], init_values, state_table)
  visit_for (d ∷ rest) init_values none = none
  visit_for (d ∷ rest) init_values (some declarations) =
      let moved = move_declarations (d ∷ rest) init_values declarations in
      some ([], moved.0, some moved.1)

module _ (T V S : Type 0) where
  unfoldable pub visit_statements :
      Statements T V S
      → Option (List (Declaration T V))
      → Option (Statements T V S × Option (List (Declaration T V)))
  visit_statements done state_table = some (done, state_table)
  visit_statements (statement s inner rest) state_table = do
    visited ← visit_statements inner state_table
    others ← visit_statements rest visited.1
    some (statement s visited.0 others.0, others.1)
  visit_statements (for_loop init_declarations init_values body rest) state_table = do
    visited ← visit_statements body state_table
    header ← visit_for T V init_declarations init_values visited.1
    others ← visit_statements rest header.2
    some (for_loop header.0 header.1 visited.0 others.0, others.1)
