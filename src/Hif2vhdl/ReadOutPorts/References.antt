-- ===== src/Hif2vhdl/ReadOutPorts/References.antt =====
-- src/hif2vhdl/PreRefine_readOutPorts.cpp: references once they are renamed.
use hif_backend.Prelude.{
  ◌≡◌, refl, sym, ap, ◌∙◌, Bool, true, false, ◌&&◌, ◌||◌, List, [], ◌∷◌, ◌++◌, Option, none, some,
  Bytes, bytes_eq, bytes_eq→eq, bytes_eq_refl, not, ◌⊎◌, if◌then◌else◌, All, arith, Bool-cases, inl,
  inr,
}
use hif_backend.Hif2vhdl.ReadOutPorts.{
  Reference, Assignment, is_read, references_of, need_fix, rename_references,
}

if_or : (b c : Bool) → (if b then true else c) ≡ (b || c)
if_or true c = refl
if_or false c = refl

need_fix-cons :
    (name : Bytes) (r : Reference) (rest : List Reference)
    → need_fix (references_of name (r ∷ rest))
      ≡ ((bytes_eq r.name name && is_read r) || need_fix (references_of name rest))
unfolding need_fix references_of
need_fix-cons name r rest = elim (Bool-cases (bytes_eq r.name name)) [
  | inl own ↦ rw own (if_or (is_read r) (need_fix (references_of name rest)))
  | inr other ↦ rw other refl
]

or-false_right : (b c : Bool) → (b || c) ≡ false → c ≡ false
or-false_right b c h = ground arith

or-false_left : (b c d : Bool) → (b || c) ≡ false → d ≡ false → (b || d) ≡ false
or-false_left b c d h g = ground arith

need_fix-later :
    (name : Bytes) (r : Reference) (rest : List Reference)
    → need_fix (references_of name (r ∷ rest)) ≡ false
    → need_fix (references_of name rest) ≡ false
need_fix-later name r rest h =
    or-false_right (bytes_eq r.name name && is_read r) _ (sym (need_fix-cons name r rest) ∙ h)

need_fix-same :
    (name : Bytes) (r : Reference) (rest changed : List Reference)
    → need_fix (references_of name (r ∷ rest)) ≡ false
    → need_fix (references_of name changed) ≡ false
    → need_fix (references_of name (r ∷ changed)) ≡ false
need_fix-same name r rest changed h g =
    need_fix-cons name r changed
    ∙ or-false_left (bytes_eq r.name name && is_read r) (need_fix (references_of name rest))
        (need_fix (references_of name changed)) (sym (need_fix-cons name r rest) ∙ h) g

pub need_fix-rename :
    (name q n : Bytes) (refs : List Reference)
    → bytes_eq n name ≡ false
    → need_fix (references_of name refs) ≡ false
    → need_fix (references_of name (rename_references q n refs)) ≡ false
unfolding need_fix references_of rename_references
need_fix-rename name q n [] f h = refl
need_fix-rename name q n (r ∷ rest) f h = elim (Bool-cases (bytes_eq r.name q)) [
  | inl renamed ↦ rw (renamed, f) (need_fix-rename name q n rest f (need_fix-later name r rest h))
  | inr kept ↦ rw kept (
      need_fix-same name r rest (rename_references q n rest) h
        (need_fix-rename name q n rest f (need_fix-later name r rest h)))
]

references_of-rename :
    (name n : Bytes) (refs : List Reference)
    → bytes_eq n name ≡ false
    → references_of name (rename_references name n refs) ≡ []
unfolding references_of rename_references
references_of-rename name n [] f = refl
references_of-rename name n (r ∷ rest) f = elim (Bool-cases (bytes_eq r.name name)) [
  | inl renamed ↦ rw (renamed, f) (references_of-rename name n rest f)
  | inr kept ↦ rw kept (rw kept (references_of-rename name n rest f))
]

pub need_fix-unread :
    (name n : Bytes) (refs : List Reference)
    → bytes_eq n name ≡ false
    → need_fix (references_of name (rename_references name n refs)) ≡ false
unfolding need_fix
need_fix-unread name n refs f = rw (references_of-rename name n refs f) refl

-- Every reference of the port stands on a left-hand side or is the prefix of the value of a port
-- assignment.
abbrev pub IsUnread : Bytes → List Reference → Type 0
IsUnread name refs =
    All (λ r. r.name ≡ name → (r.in_left_hand_side ≡ true) ⊎ (r.port_assign ≡ some true)) refs

not_read :
    (left : Bool) (port_assign : Option Bool)
    → (if left then false else elim port_assign [ none ↦ true | some is_prefix ↦ not is_prefix ])
      ≡ false
    → (left ≡ true) ⊎ (port_assign ≡ some true)
not_read true port_assign h = inl refl
not_read false none h = cc
not_read false (some true) h = inr refl
not_read false (some false) h = cc

is_read-places :
    (r : Reference) → is_read r ≡ false → (r.in_left_hand_side ≡ true) ⊎ (r.port_assign ≡ some true)
unfolding is_read
is_read-places r h = not_read r.in_left_hand_side r.port_assign h

own_reference : (b c d : Bool) → ((b && c) || d) ≡ false → b ≡ true → c ≡ false
own_reference b c d h e = ground arith

pub need_fix-IsUnread :
    (name : Bytes) (refs : List Reference)
    → need_fix (references_of name refs) ≡ false
    → IsUnread name refs
need_fix-IsUnread name [] h = tt
need_fix-IsUnread name (r ∷ rest) h = (
  λ same. is_read-places r (
      own_reference (bytes_eq r.name name) (is_read r) (need_fix (references_of name rest))
        (sym (need_fix-cons name r rest) ∙ h)
        (ap (λ n. bytes_eq n name) same ∙ bytes_eq_refl name)),
  need_fix-IsUnread name rest (need_fix-later name r rest h),
)

module _ {W : Type 0} (val : Bytes → W) where
  -- What the references stand for, if the names have these values.
  abbrev pub values : List Reference → List W
  values [] = []
  values (r ∷ rest) = val r.name ∷ values rest

  -- The names have values that the global action does not change.
  abbrev pub Holds : Option (List Assignment) → Type 0
  Holds none = Unit
  Holds (some actions) = All (λ a. val a.target ≡ val a.source) actions

  pub All-snoc :
      (actions : List Assignment) (a : Assignment)
      → All (λ b. val b.target ≡ val b.source) (actions ++ a ∷ [])
      → All (λ b. val b.target ≡ val b.source) actions × (val a.target ≡ val a.source)
  All-snoc [] a (h, hs) = (tt, h)
  All-snoc (b ∷ actions) a (h, hs) = let (rest, last) = All-snoc actions a hs in ((h, rest), last)

  pub values-rename :
      (name n : Bytes) (refs : List Reference)
      → val name ≡ val n
      → values (rename_references name n refs) ≡ values refs
  unfolding rename_references
  values-rename name n [] e = refl
  values-rename name n (r ∷ rest) e = elim (Bool-cases (bytes_eq r.name name)) [
    | inl renamed ↦ rw renamed (
        ap (λ t. val n ∷ t) (values-rename name n rest e)
        ∙ ap (λ w. w ∷ values rest) (sym e ∙ ap val (sym (bytes_eq→eq r.name name renamed))))
    | inr kept ↦ rw kept (ap (λ t. val r.name ∷ t) (values-rename name n rest e))
  ]
