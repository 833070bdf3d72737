-- ===== src/Hif2verilog/ContinuousDrivers/Others.antt =====
-- src/hif2verilog/VerilogPrinter.cpp: which declarations the global action, the instances and the
-- assignments of a view name, apart from the sets that the printer keeps.
use hif_backend.Prelude.{
  ℕ, ◌≡◌, refl, ap, ◌∙◌, Bool, true, false, ◌&&◌, ◌||◌, not, List, [], ◌∷◌, Option, none, some,
  Bytes, ◌==◌, any, if◌then◌else◌, arith,
}
use hif_backend.Hif.{Direction, dir_none, dir_in, dir_out, dir_inout}
use hif_backend.Hif2verilog.ContinuousDrivers.{
  Prefix, PortAssign, Action, assign, other, Contents, member, named, insert_named, drive_actions,
  is_driving, drive_port_assign, drive_instance, drive_instances, assigned_anywhere,
  driven_by_others,
}

-- The expression names the declaration.
abbrev pub names : ℕ → Prefix → Bool
names d p = p.is_identifier && (elim p.declaration [ none ↦ false | some e ↦ d == e ])

abbrev pub action_drives : ℕ → Action → Bool
action_drives d (assign target) = names d target
action_drives d other = false

-- The directions in which an instance drives what is bound to it.
abbrev pub drives_out : Direction → Bool
drives_out dir_none = false
drives_out dir_in = false
drives_out dir_out = true
drives_out dir_inout = true

is_driving-drives_out : (d : Direction) → is_driving d ≡ drives_out d
unfolding is_driving
is_driving-drives_out dir_none = refl
is_driving-drives_out dir_in = refl
is_driving-drives_out dir_out = refl
is_driving-drives_out dir_inout = refl

-- An output or an inout of an instance is bound to the declaration.
abbrev pub port_assign_drives : ℕ → PortAssign → Bool
port_assign_drives d pa = elim pa.formal [
  | none ↦ false
  | some direction ↦ elim pa.value [
    | none ↦ false
    | some actual ↦ drives_out direction && names d actual
  ]
]

abbrev pub driven_elsewhere : Contents → ℕ → Bool
driven_elsewhere contents d =
    any (λ i. any (port_assign_drives d) i) contents.instances
    || (elim contents.global_action [ none ↦ false | some actions ↦ any (action_drives d) actions ])

abbrev pub assigned_in : Contents → ℕ → Bool
assigned_in contents d = any (names d) contents.assigns

or-false : (b : Bool) → (b || false) ≡ b
or-false b = ground arith

or-later : (a b c : Bool) → (b || (a || c)) ≡ ((elim a [ true ↦ true | false ↦ b ]) || c)
or-later a b c = ground arith

named_lem :
    (d : ℕ) (identifier : Bool) (declaration : Option ℕ) (set : List ℕ)
    → member d
        (elim (if not identifier then none else declaration) [ none ↦ set | some e ↦ e ∷ set ])
      ≡ ((identifier && (elim declaration [ none ↦ false | some e ↦ d == e ])) || member d set)
named_lem d true none set = refl
named_lem d true (some e) set = refl
named_lem d false declaration set = refl

member-insert_named :
    (d : ℕ) (p : Prefix) (set : List ℕ)
    → member d (insert_named p set) ≡ (names d p || member d set)
unfolding insert_named named
member-insert_named d p set = named_lem d p.is_identifier p.declaration set

member-drive_actions :
    (d : ℕ) (actions : List Action) (set : List ℕ)
    → member d (drive_actions actions set) ≡ (any (action_drives d) actions || member d set)
unfolding drive_actions
member-drive_actions d [] set = refl
member-drive_actions d (other ∷ rest) set = member-drive_actions d rest set
member-drive_actions d (assign target ∷ rest) set =
    member-drive_actions d rest (insert_named target set)
    ∙ ap (λ b. any (action_drives d) rest || b) (member-insert_named d target set)
    ∙ or-later (names d target) (any (action_drives d) rest) (member d set)

gated :
    (d : ℕ) (b : Bool) (actual : Prefix) (set : List ℕ)
    → member d (if not b then set else insert_named actual set)
      ≡ ((b && names d actual) || member d set)
gated d true actual set = member-insert_named d actual set
gated d false actual set = refl

bound :
    (d : ℕ) (formal : Option Direction) (value : Option Prefix) (set : List ℕ)
    → member d (elim formal [
      | none ↦ set
      | some direction ↦ elim value [
        | none ↦ set
        | some actual ↦ if not (is_driving direction) then set else insert_named actual set
      ]
    ])
      ≡ ((elim formal [
        | none ↦ false
        | some direction ↦ elim value [
          | none ↦ false
          | some actual ↦ drives_out direction && names d actual
        ]
      ])
          || member d set)
bound d none value set = refl
bound d (some direction) none set = refl
bound d (some direction) (some actual) set =
    gated d (is_driving direction) actual set
    ∙ ap (λ b. (b && names d actual) || member d set) (is_driving-drives_out direction)

port_assign_lem :
    (d : ℕ) (pa : PortAssign) (set : List ℕ)
    → member d (drive_port_assign pa set) ≡ (port_assign_drives d pa || member d set)
unfolding drive_port_assign
port_assign_lem d pa set = bound d pa.formal pa.value set

member-drive_instance :
    (d : ℕ) (i : List PortAssign) (set : List ℕ)
    → member d (drive_instance i set) ≡ (any (port_assign_drives d) i || member d set)
unfolding drive_instance
member-drive_instance d [] set = refl
member-drive_instance d (pa ∷ rest) set =
    member-drive_instance d rest (drive_port_assign pa set)
    ∙ ap (λ b. any (port_assign_drives d) rest || b) (port_assign_lem d pa set)
    ∙ or-later (port_assign_drives d pa) (any (port_assign_drives d) rest) (member d set)

member-drive_instances :
    (d : ℕ) (instances : List (List PortAssign)) (set : List ℕ)
    → member d (drive_instances instances set)
      ≡ (any (λ i. any (port_assign_drives d) i) instances || member d set)
unfolding drive_instances
member-drive_instances d [] set = refl
member-drive_instances d (i ∷ rest) set =
    member-drive_instances d rest (drive_instance i set)
    ∙ ap (λ b. any (λ j. any (port_assign_drives d) j) rest || b) (member-drive_instance d i set)
    ∙ or-later (any (port_assign_drives d) i) (any (λ j. any (port_assign_drives d) j) rest)
        (member d set)

member-assigned :
    (d : ℕ) (targets : List Prefix) (set : List ℕ)
    → member d (assigned_anywhere targets set) ≡ (any (names d) targets || member d set)
unfolding assigned_anywhere
member-assigned d [] set = refl
member-assigned d (target ∷ rest) set =
    member-assigned d rest (insert_named target set)
    ∙ ap (λ b. any (names d) rest || b) (member-insert_named d target set)
    ∙ or-later (names d target) (any (names d) rest) (member d set)

pub member-assigned_anywhere :
    (contents : Contents) (d : ℕ)
    → member d (assigned_anywhere contents.assigns []) ≡ assigned_in contents d
member-assigned_anywhere contents d =
    member-assigned d contents.assigns [] ∙ or-false (any (names d) contents.assigns)

all_driven :
    (d : ℕ) (instances : List (List PortAssign)) (actions : Option (List Action))
    → member d (elim actions [
      | none ↦ drive_instances instances []
      | some given ↦ drive_instances instances (drive_actions given [])
    ])
      ≡ (any (λ i. any (port_assign_drives d) i) instances
          || (elim actions [ none ↦ false | some given ↦ any (action_drives d) given ]))
all_driven d instances none = member-drive_instances d instances []
all_driven d instances (some given) =
    member-drive_instances d instances (drive_actions given [])
    ∙ ap (λ b. any (λ i. any (port_assign_drives d) i) instances || b)
        (member-drive_actions d given [] ∙ or-false (any (action_drives d) given))

module _ (V : Type 0) (render : V → Bytes) where
  pub member-driven_by_others :
      (contents : Contents) (d : ℕ)
      → member d (driven_by_others V render contents) ≡ driven_elsewhere contents d
  unfolding driven_by_others
  member-driven_by_others contents d = all_driven d contents.instances contents.global_action
