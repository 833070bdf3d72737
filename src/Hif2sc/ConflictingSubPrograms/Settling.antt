-- ===== src/Hif2sc/ConflictingSubPrograms/Settling.antt =====
-- src/hif2sc/PreRefine_conflictingSubPrograms.cpp: what is left of conflicts after the pass.
use hif_backend.Prelude.{
  ℕ, ◌≡◌, refl, sym, Bool, true, false, ◌&&◌, List, [], ◌∷◌, Bytes, bytes_eq, bytes_eq→eq, ◌==◌,
  arith, Bool-cases, inl, inr, ==_iff,
}
use mathlib.Core.Path.{subst}
use hif_backend.Hif2sc.ConflictingSubPrograms.{
  State, member, check_call, fix_conflicting_subprograms,
}
use hif_backend.Hif2sc.ConflictingSubPrograms.Marking.{
  select, Before, Distinct, Before-members, Before-differ,
}
use hif_backend.Hif2sc.ConflictingSubPrograms.Checking.{Alone, Calls, Checked, check_call-Checked}
use hif_backend.Hif2sc.ConflictingSubPrograms.Renaming.{has}

-- A name that is none of a list is fresh; the calls of a subprogram are those with it as their
-- target; the candidates for a call are the subprograms of its name that are visible from where
-- it stands, in the order of their declarations.
module _ (conflict : ℕ → ℕ → Bool) (references : ℕ → List ℕ) (candidates : (ℕ → Bytes) → ℕ → List ℕ)
    (subprograms : List ℕ) (fresh : List Bytes → Bytes → Bytes)
    (fresh-new : (used : List Bytes) (base : Bytes) → has (fresh used base) used ≡ false)
    (target : ℕ → ℕ) (references-of : (c d : ℕ) → member c (references d) ≡ (target c == d))
    (visible : ℕ → ℕ → Bool)
    (candidates-of : (name : ℕ → Bytes) (o : ℕ)
      → candidates name o ≡ select (λ d. bytes_eq (name d) (name o) && visible o d) subprograms)
    (distinct : Distinct subprograms) where
  abbrev Check : ℕ → State → State → Type 0
  Check =
      Checked conflict references candidates subprograms fresh fresh-new target references-of
        visible candidates-of distinct

  abbrev Single : State → ℕ → Type 0
  Single =
      Alone conflict references candidates subprograms fresh fresh-new target references-of visible
        candidates-of distinct

  abbrev pub Called : State → Type 0
  Called =
      Calls conflict references candidates subprograms fresh fresh-new target references-of visible
        candidates-of distinct

  checked_call :
      (o : ℕ) (s : State)
      → Check o s (check_call conflict references candidates subprograms fresh o s)
  checked_call =
      check_call-Checked conflict references candidates subprograms fresh fresh-new target
        references-of visible candidates-of distinct

  -- Of two subprograms with the name of one and visible from it the earlier does not conflict with
  -- the later.
  abbrev pub Settled : State → ℕ → Type 0
  Settled s o =
      (a b : ℕ)
      → Before a b subprograms
      → bytes_eq (s.name_of a) (s.name_of o) ≡ true
      → bytes_eq (s.name_of b) (s.name_of o) ≡ true
      → (visible o a && visible o b) ≡ true
      → conflict a b ≡ false

  -- Where two subprograms and a third have one name, none of them is alone.
  not-Alone :
      (t : State) (a b o : ℕ)
      → Before a b subprograms
      → bytes_eq (t.name_of a) (t.name_of o) ≡ true
      → bytes_eq (t.name_of b) (t.name_of o) ≡ true
      → (x : ℕ) → t.name_of x ≡ t.name_of o
      → Single t x
      → ⊥
  not-Alone t a b o before ea eb x nx alone =
      let differ = Before-differ a b subprograms distinct before in
      let (ma, mb) = Before-members a b subprograms before in
      let na : bytes_eq (t.name_of a) (t.name_of x) ≡ true = rw nx ea in
      let nb : bytes_eq (t.name_of b) (t.name_of x) ≡ true = rw nx eb in
      elim (Bool-cases (a == x)) [
        | inl e ↦
            let wrong = alone b mb (ground (arith, e, differ)) in let no_case : ⊥ = cc in no_case
        | inr n ↦ let wrong = alone a ma n in let no_case : ⊥ = cc in no_case
      ]

  kept :
      (o : ℕ) (s t : State)
      → Check o s t
      → (a b o' : ℕ) → Before a b subprograms
      → bytes_eq (t.name_of a) (t.name_of o') ≡ true
      → bytes_eq (t.name_of b) (t.name_of o') ≡ true
      → (x : ℕ) → member x subprograms ≡ true
      → t.name_of x ≡ t.name_of o'
      → t.name_of x ≡ s.name_of x
  kept o s t checked a b o' before ea eb x m nx = elim (checked.kept_or_alone x m) [
    | inl e ↦ e
    | inr alone ↦ absurd (not-Alone t a b o' before ea eb x nx alone)
  ]

  -- The names before a check of subprograms that have one name behind it.
  earlier_names :
      (o : ℕ) (s t : State)
      → Check o s t
      → (a b o' : ℕ) → member o' subprograms ≡ true
      → Before a b subprograms
      → bytes_eq (t.name_of a) (t.name_of o') ≡ true
      → bytes_eq (t.name_of b) (t.name_of o') ≡ true
      → (bytes_eq (s.name_of a) (s.name_of o') ≡ true)
        × (bytes_eq (s.name_of b) (s.name_of o') ≡ true)
  earlier_names o s t checked a b o' m before ea eb =
      let (ma, mb) = Before-members a b subprograms before in
      let same = kept o s t checked a b o' before ea eb in
      let ka = same a ma (bytes_eq→eq (t.name_of a) (t.name_of o') ea) in
      let kb = same b mb (bytes_eq→eq (t.name_of b) (t.name_of o') eb) in
      let ko = same o' m refl in (rw (← ka, ← ko) ea, rw (← kb, ← ko) eb)

  Checked-Settled :
      (o : ℕ) (s t : State)
      → Check o s t
      → (o' : ℕ) → member o' subprograms ≡ true
      → Settled s o'
      → Settled t o'
  Checked-Settled o s t checked o' m settled a b before ea eb v =
      let (ha, hb) = earlier_names o s t checked a b o' m before ea eb in settled a b before ha hb v

  Checked-Settled_own :
      (o : ℕ) (s t : State) → member o subprograms ≡ true → Check o s t → Settled t o
  Checked-Settled_own o s t m checked a b before ea eb v =
      let (ha, hb) = earlier_names o s t checked a b o m before ea eb in
      elim (Bool-cases (conflict a b)) [
        | inr n ↦ n
        | inl c ↦ elim (checked.parted a b before ha hb v c) [
          | inl alone ↦ absurd (not-Alone t a b o before ea eb a (bytes_eq→eq _ _ ea) alone)
          | inr alone ↦ absurd (not-Alone t a b o before ea eb b (bytes_eq→eq _ _ eb) alone)
        ]
      ]

  fix-keeps :
      (os : List ℕ) (s : State) (o : ℕ)
      → member o subprograms ≡ true
      → Settled s o
      → Settled
          (fix_conflicting_subprograms conflict references candidates subprograms fresh os s)
          o
  unfolding fix_conflicting_subprograms
  fix-keeps [] s o m h = h
  fix-keeps (p ∷ os) s o m h =
      fix-keeps os (check_call conflict references candidates subprograms fresh p s) o m
        (Checked-Settled p s _ (checked_call p s) o m h)

  fix-Calls :
      (os : List ℕ) (s : State)
      → Called s
      → Called (fix_conflicting_subprograms conflict references candidates subprograms fresh os s)
  unfolding fix_conflicting_subprograms
  fix-Calls [] s c = c
  fix-Calls (p ∷ os) s c =
      fix-Calls os (check_call conflict references candidates subprograms fresh p s)
        ((checked_call p s).calls c)

  -- If hif-core finds for a call the subprograms of its name that are visible from where it stands,
  -- in the order of their declarations, and knows the calls of each, and a fresh name is none of
  -- those given, then after the pass, of two subprograms that are visible from a visited one and
  -- have its name the earlier does not conflict with the later, and each call has the name of its
  -- subprogram if each had it before.
  pub fix_conflicting_subprograms-Settled :
      (os : List ℕ) (s : State) (o : ℕ)
      → member o os ≡ true
      → member o subprograms ≡ true
      → let t = fix_conflicting_subprograms conflict references candidates subprograms fresh os s in
        Settled t o × (Called s → Called t)
  unfolding fix_conflicting_subprograms
  fix_conflicting_subprograms-Settled [] s o h m = let wrong : ⊥ = cc in absurd wrong
  fix_conflicting_subprograms-Settled (p ∷ os) s o h m = elim (Bool-cases (o == p)) [
    | inl e ↦
        let same : o ≡ p = (==_iff o p).0 e in
        let first : State = check_call conflict references candidates subprograms fresh p s in
        let settled : Settled first p =
          Checked-Settled_own p s first (rw (← same) m) (checked_call p s) in
        (
          fix-keeps os first o m (subst (λ y. Settled first y) (sym same) settled),
          λ c. fix-Calls os first ((checked_call p s).calls c),
        )
    | inr n ↦
        let first : State = check_call conflict references candidates subprograms fresh p s in
        let (settled, called) =
          fix_conflicting_subprograms-Settled os first o (ground (arith, h, n)) m in
        (settled, λ c. called ((checked_call p s).calls c))
  ]
