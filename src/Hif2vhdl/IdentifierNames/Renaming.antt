-- ===== src/Hif2vhdl/IdentifierNames/Renaming.antt =====
-- `BeforeVisit` and `AfterVisit` of the pass: declarations, and the references that follow them.
-- The traversal of the tree and the map of references are hif-core's: the tree is the list of the
-- objects in the order in which they are visited, each with what hif-core answers about it.
pub mod Agreement
use Prim.Native.Nat.{ℕ, zero, suc, ◌+◌, ◌<◌, ◌≤◌}
use hif_backend.Prelude.{
  ◌≡◌, ◌≢◌, refl, ap, sym, ◌∙◌, Bool-cases, false, true, Bool, ◌&&◌, ◌||◌, List, [], ◌∷◌, ◌++◌,
  none, some, Bytes, ◌==◌, ==_iff, if◌then◌else◌, arith, Option, Option-cases, ◌⊎◌, inl, inr,
  length, ◌↔◌, All, is_empty, bytes_eq, not,
}
use hif_backend.Hif2vhdl.IdentifierNames.Names.{fixed_name, fixed_name_idem}

-- Whether the declaration of a symbol, the library or view that it is, or the nearest ones around
-- it, are standard.
pub record Origin : Type 0 where
  pub is_standard_library : Bool
  pub is_standard_view : Bool
  pub in_standard_library : Bool
  pub in_standard_view : Bool

-- What `getDeclaration` answers: `library_instance` is an instance of a library, which has none.
pub data Symbol : Type 0 where
  not_a_symbol : Symbol
  undeclared : Symbol
  library_instance : Symbol
  declared : Origin → Symbol

pub data Kind : Type 0 where
  view_reference : Kind
  declaration : List ℕ → Kind
  other : Kind

pub record Visited : Type 0 where
  pub object : ℕ
  pub symbol : Symbol
  pub kind : Kind

-- The names that the objects carry, and the design units that view references name.
pub record Names : Type 0 where
  pub name : ℕ → Bytes
  pub design_unit : ℕ → Bytes

-- `objectSetName`.
abbrev pub update : (ℕ → Bytes) → ℕ → Bytes → ℕ → Bytes
update f o n x = if x == o then n else f x

pub update_all : (ℕ → Bytes) → List ℕ → Bytes → ℕ → Bytes
update_all f [] n = f
update_all f (r ∷ rs) n = update_all (update f r n) rs n

-- `BeforeVisit`: a standard library or design unit is not entered.
pub before_visit : Option Bool → Option Bool → Bool
before_visit library_def design_unit = elim library_def [
  | some true ↦ true
  | _ ↦ elim design_unit [ some true ↦ true | _ ↦ false ]
]

is_exempt : Origin → Bool
is_exempt d =
    d.is_standard_library || d.is_standard_view || d.in_standard_library || d.in_standard_view

-- The renaming of one object, whose name is not empty, and of what hangs on it.
rename_as : Kind → ℕ → Names → Names
rename_as view_reference o s = record s {
  name = update s.name o (fixed_name (s.name o));
  design_unit = update s.design_unit o (fixed_name (s.design_unit o));
}
rename_as (declaration refs) o s = record s {
  name =
      let nm = s.name o in
      let renamed = update s.name o (fixed_name nm) in
      if bytes_eq (fixed_name nm) nm then renamed else update_all renamed refs (fixed_name nm);
}
rename_as other o s = record s { name = update s.name o (fixed_name (s.name o)) }

rename : Visited → Names → Names
unfolding rename_as
rename v s = if is_empty (s.name v.object) then s else rename_as v.kind v.object s

-- `AfterVisit`; `none` is the failed assertion "Declaration not found".
pub after_visit : Visited → Names → Option Names
unfolding is_exempt rename
after_visit v s = elim v.symbol [
  | not_a_symbol ↦ some (rename v s)
  | undeclared ↦ none
  | library_instance ↦ some s
  | declared d ↦ if is_exempt d then some s else some (rename v s)
]

pub after_visits : List Visited → Names → Option Names
after_visits [] s = some s
after_visits (v ∷ vs) s = elim (after_visit v s) [ none ↦ none | some t ↦ after_visits vs t ]
