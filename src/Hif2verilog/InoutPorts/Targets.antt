-- ===== src/Hif2verilog/InoutPorts/Targets.antt =====
-- src/hif2verilog/PostRefine_inoutPort.cpp: the targets of assignments once they are renamed.
use hif_backend.Prelude.{
  ◌≡◌, refl, sym, ap, ◌∙◌, Bool, true, false, ◌&&◌, ◌||◌, not, List, [], ◌∷◌, ◌++◌, map, Option,
  none, some, Bytes, bytes_eq, bytes_eq→eq, bytes_eq_refl, if◌then◌else◌, All, is_empty, Bool-cases,
  inl, inr,
}
use hif_backend.Hif2verilog.InoutPorts.{
  Assign, drives, collect_procedural_assigns, retarget, add_action,
}

-- Some process or subprogram assigns the port.
abbrev pub driven : Bytes → List Assign → Bool
driven port [] = false
driven port (a ∷ rest) = drives port a || driven port rest

pub driven-collect :
    (port : Bytes) (assigns : List Assign)
    → is_empty (collect_procedural_assigns assigns port) ≡ not (driven port assigns)
unfolding collect_procedural_assigns
driven-collect port [] = refl
driven-collect port (a ∷ rest) = elim (Bool-cases (drives port a)) [
  | inl own ↦ rw own refl
  | inr other ↦ rw other (driven-collect port rest)
]

or_step :
    (b c d e : Bool)
    → ((b || c) ≡ false)
    → (b ≡ false → d ≡ false)
    → (c ≡ false → e ≡ false)
    → (d || e) ≡ false
or_step true c d e h f g = cc
or_step false c d e h f g = rw (f refl) (g h)

drives-renamed :
    (port driver : Bytes) (a : Assign)
    → bytes_eq driver port ≡ false
    → drives port (record a { target = some driver }) ≡ false
unfolding drives
drives-renamed port driver a f = elim (Bool-cases a.in_state_table) [
  | inl inside ↦ rw inside f
  | inr outside ↦ rw outside refl
]

-- A target renamed to a name that is not the port's no longer is the port.
drives-retarget :
    (port q driver : Bytes) (a : Assign)
    → bytes_eq driver port ≡ false
    → drives port a ≡ false
    → drives port (if drives q a then record a { target = some driver } else a) ≡ false
drives-retarget port q driver a f h = elim (Bool-cases (drives q a)) [
  | inl own ↦ rw own (drives-renamed port driver a f)
  | inr other ↦ rw other h
]

pub driven-retarget :
    (port q driver : Bytes) (assigns : List Assign)
    → bytes_eq driver port ≡ false
    → driven port assigns ≡ false
    → driven port (retarget q driver assigns) ≡ false
unfolding retarget
driven-retarget port q driver [] f h = refl
driven-retarget port q driver (a ∷ rest) f h =
    or_step (drives port a) (driven port rest) _ _ h (drives-retarget port q driver a f)
      (driven-retarget port q driver rest f)

pub driven-retarget_own :
    (port driver : Bytes) (assigns : List Assign)
    → bytes_eq driver port ≡ false
    → driven port (retarget port driver assigns) ≡ false
unfolding retarget
driven-retarget_own port driver [] f = refl
driven-retarget_own port driver (a ∷ rest) f = elim (Bool-cases (drives port a)) [
  | inl own ↦ rw own (rw (drives-renamed port driver a f) (driven-retarget_own port driver rest f))
  | inr other ↦ rw (other, other) (driven-retarget_own port driver rest f)
]

-- What the assignments read is left as it is.
pub reads-retarget :
    (port driver : Bytes) (assigns : List Assign)
    → map (λ a. a.reads) (retarget port driver assigns) ≡ map (λ a. a.reads) assigns
unfolding retarget
reads-retarget port driver [] = refl
reads-retarget port driver (a ∷ rest) = elim (Bool-cases (drives port a)) [
  | inl own ↦ rw own (ap (λ t. a.reads ∷ t) (reads-retarget port driver rest))
  | inr other ↦ rw other (ap (λ t. a.reads ∷ t) (reads-retarget port driver rest))
]

drives→target :
    (port : Bytes) (b : Bool) (t : Option Bytes)
    → (if not b then false else (elim t [ none ↦ false | some n ↦ bytes_eq n port ])) ≡ true
    → t ≡ some port
drives→target port true none h = cc
drives→target port true (some n) h = ap some (bytes_eq→eq n port h)
drives→target port false t h = cc

target_of : (port : Bytes) (a : Assign) → drives port a ≡ true → a.target ≡ some port
unfolding drives
target_of port a h = drives→target port a.in_state_table a.target h

drives-target :
    (port : Bytes) (a : Assign)
    → a.in_state_table ≡ true
    → a.target ≡ some port
    → drives port a ≡ true
unfolding drives
drives-target port a inside target = rw (inside, target) (bytes_eq_refl port)

-- No process or subprogram assigns the port.
abbrev pub IsUnassigned : Bytes → List Assign → Type 0
IsUnassigned port assigns = All (λ a. a.in_state_table ≡ true → a.target ≡ some port → ⊥) assigns

or-cases : (b c : Bool) → (b || c) ≡ false → (b ≡ false) × (c ≡ false)
or-cases true c h = cc
or-cases false c h = (refl, h)

pub driven-IsUnassigned :
    (port : Bytes) (assigns : List Assign) → driven port assigns ≡ false → IsUnassigned port assigns
driven-IsUnassigned port [] h = tt
driven-IsUnassigned port (a ∷ rest) h =
    let (own, others) = or-cases (drives port a) (driven port rest) h in
    (
      λ inside target. let is = drives-target port a inside target in let wrong : ⊥ = cc in wrong,
      driven-IsUnassigned port rest others,
    )

pub and-false_right : (b : Bool) {c : Bool} → c ≡ false → (b && c) ≡ false
and-false_right true h = h
and-false_right false h = refl

module _ {W : Type 0} (net : Bytes → W) where
  abbrev pub net_of : Option Bytes → Option W
  net_of none = none
  net_of (some n) = some (net n)

  -- The nets that the assignments drive, if names stand for these.
  abbrev pub nets : List Assign → List (Option W)
  nets [] = []
  nets (a ∷ rest) = net_of a.target ∷ nets rest

  -- The target and the source of each continuous assignment stand for one net.
  abbrev pub Joined : Option (List (Bytes × Bytes)) → Type 0
  Joined none = Unit
  Joined (some actions) = All (λ a. net a.0 ≡ net a.1) actions

  net_of-drives :
      (port driver : Bytes) (a : Assign)
      → net port ≡ net driver
      → drives port a ≡ true
      → some (net driver) ≡ net_of a.target
  net_of-drives port driver a e h = rw (target_of port a h) (ap some (sym e))

  pub nets-retarget :
      (port driver : Bytes) (assigns : List Assign)
      → net port ≡ net driver
      → nets (retarget port driver assigns) ≡ nets assigns
  unfolding retarget
  nets-retarget port driver [] e = refl
  nets-retarget port driver (a ∷ rest) e = elim (Bool-cases (drives port a)) [
    | inl own ↦ rw own (
        ap (λ t. some (net driver) ∷ t) (nets-retarget port driver rest e)
        ∙ ap (λ o. o ∷ nets rest) (net_of-drives port driver a e own))
    | inr other ↦ rw other (ap (λ t. net_of a.target ∷ t) (nets-retarget port driver rest e))
  ]

  All-snoc :
      (actions : List (Bytes × Bytes)) (a : Bytes × Bytes)
      → All (λ b. net b.0 ≡ net b.1) (actions ++ a ∷ [])
      → All (λ b. net b.0 ≡ net b.1) actions × (net a.0 ≡ net a.1)
  All-snoc [] a (h, hs) = (tt, h)
  All-snoc (b ∷ actions) a (h, hs) = let (rest, last) = All-snoc actions a hs in ((h, rest), last)

  pub Joined-add_action :
      (actions : Option (List (Bytes × Bytes))) (a : Bytes × Bytes)
      → Joined (add_action actions a)
      → Joined actions × (net a.0 ≡ net a.1)
  unfolding add_action
  Joined-add_action none a (h, hs) = (tt, h)
  Joined-add_action (some actions) a h = All-snoc actions a h
