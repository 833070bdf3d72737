-- ===== src/Hif2sc/ConflictingSubPrograms/Checking.antt =====
-- src/hif2sc/PreRefine_conflictingSubPrograms.cpp: what one check does.
use hif_backend.Prelude.{
  ℕ, ◌≡◌, ◌⊎◌, refl, sym, ap, ◌∙◌, Bool, true, false, ◌&&◌, List, [], ◌∷◌, Bytes, bytes_eq, length,
  ltb, ◌==◌, arith, Bool-cases, inl, inr,
}
use hif_backend.Hif2sc.ConflictingSubPrograms.{
  State, member, mark, rename_all, update_signatures, check_call,
}
use hif_backend.Hif2sc.ConflictingSubPrograms.Marking.{
  select, Before, Distinct, member-select, Before-select, Before-members, Before-differ,
  mark-Before, mark-from,
}
use hif_backend.Hif2sc.ConflictingSubPrograms.Renaming.{
  has, Isolated, Agrees, rename_all-kept, rename_all-Isolated, rename_all-Agrees,
}

Before-two : (a b : ℕ) (xs : List ℕ) → Before a b xs → ltb (length xs) 2 ≡ false
Before-two a b [] h = elim h [ ]
Before-two a b (x ∷ []) (inl h) = ground arith
Before-two a b (x ∷ []) (inr h) = elim h [ ]
Before-two a b (x ∷ y ∷ ys) h = ground arith

-- A name that is none of a list is fresh; the calls of a subprogram are those with it as their
-- target; the candidates for a call are the subprograms of its name that are visible from where
-- it stands, in the order of their declarations.
module _ (conflict : ℕ → ℕ → Bool) (references : ℕ → List ℕ) (candidates : (ℕ → Bytes) → ℕ → List ℕ)
    (subprograms : List ℕ) (fresh : List Bytes → Bytes → Bytes)
    (fresh-new : (used : List Bytes) (base : Bytes) → has (fresh used base) used ≡ false)
    (target : ℕ → ℕ) (references-of : (c d : ℕ) → member c (references d) ≡ (target c == d))
    (visible : ℕ → ℕ → Bool)
    (candidates-of : (name : ℕ → Bytes) (o : ℕ)
      → candidates name o ≡ select (λ d. bytes_eq (name d) (name o) && visible o d) subprograms)
    (distinct : Distinct subprograms) where
  abbrev pub Alone : State → ℕ → Type 0
  Alone = Isolated references subprograms fresh fresh-new

  abbrev pub Calls : State → Type 0
  Calls = Agrees references subprograms fresh fresh-new target references-of

  -- What one check does to the names.
  pub record Checked (o : ℕ) (s t : State) : Type 0 where
    pub kept_or_alone :
        (x : ℕ) → member x subprograms ≡ true → (t.name_of x ≡ s.name_of x) ⊎ Alone t x
    pub parted :
        (a b : ℕ)
        → Before a b subprograms
        → bytes_eq (s.name_of a) (s.name_of o) ≡ true
        → bytes_eq (s.name_of b) (s.name_of o) ≡ true
        → (visible o a && visible o b) ≡ true
        → conflict a b ≡ true
        → Alone t a ⊎ Alone t b
    pub calls : Calls s → Calls t

  rename_all-Checked :
      (o d : ℕ) (ds : List ℕ) (s : State)
      → ((x : ℕ) → member x (d ∷ ds) ≡ true → member x subprograms ≡ true)
      → ((a b : ℕ)
          → Before a b subprograms
          → bytes_eq (s.name_of a) (s.name_of o) ≡ true
          → bytes_eq (s.name_of b) (s.name_of o) ≡ true
          → (visible o a && visible o b) ≡ true
          → conflict a b ≡ true
          → (member a (d ∷ ds) ≡ true) × (member b (d ∷ ds) ≡ true))
      → Checked o s (rename_all references subprograms fresh ds (record s { found = true }))
  rename_all-Checked o d ds s within marks = record {
    kept_or_alone = λ x m. elim (Bool-cases (member x ds)) [
      | inl e ↦ inr (rename_all-Isolated references subprograms fresh fresh-new ds _ x e m)
      | inr n ↦ inl (rename_all-kept references subprograms fresh fresh-new ds _ x n)
    ];
    parted = λ a b before ha hb v c.
        let (ma, mb) = marks a b before ha hb v c in
        let differ = Before-differ a b subprograms distinct before in
        let (ia, ib) = Before-members a b subprograms before in
        elim (Bool-cases (member a ds)) [
          | inl e ↦ inl (rename_all-Isolated references subprograms fresh fresh-new ds _ a e ia)
          | inr n ↦ inr (
              rename_all-Isolated references subprograms fresh fresh-new ds _ b
                (ground (arith, ma, mb, differ, n)) ib)
        ];
    calls =
        λ h. rename_all-Agrees references subprograms fresh fresh-new target references-of ds _ h;
  }

  update_signatures-Checked :
      (o : ℕ) (ms : List ℕ) (s : State)
      → ((x : ℕ) → member x ms ≡ true → member x subprograms ≡ true)
      → ((a b : ℕ)
          → Before a b subprograms
          → bytes_eq (s.name_of a) (s.name_of o) ≡ true
          → bytes_eq (s.name_of b) (s.name_of o) ≡ true
          → (visible o a && visible o b) ≡ true
          → conflict a b ≡ true
          → (member a ms ≡ true) × (member b ms ≡ true))
      → Checked o s (update_signatures references subprograms fresh ms s)
  unfolding update_signatures
  update_signatures-Checked o [] s within marks = record {
    kept_or_alone = λ x m. inl refl;
    parted = λ a b before ha hb v c.
        let wrong : false ≡ true = (marks a b before ha hb v c).0 in
        let none_left : ⊥ = cc in absurd none_left;
    calls = λ h. h;
  }
  update_signatures-Checked o (d ∷ ds) s within marks = rename_all-Checked o d ds s within marks

  pub check_call-Checked :
      (o : ℕ) (s : State)
      → Checked o s (check_call conflict references candidates subprograms fresh o s)
  unfolding check_call
  check_call-Checked o s =
      let named : ℕ → Bool = λ d. bytes_eq (s.name_of d) (s.name_of o) && visible o d in
      let found : candidates s.name_of o ≡ select named subprograms = candidates-of s.name_of o in
      let here : (a b : ℕ)
          → Before a b subprograms
          → bytes_eq (s.name_of a) (s.name_of o) ≡ true
          → bytes_eq (s.name_of b) (s.name_of o) ≡ true
          → (visible o a && visible o b) ≡ true
          → Before a b (candidates s.name_of o) =
        λ a b before ha hb v. rw found (
          Before-select named a b subprograms (ground (arith, ha, v)) (ground (arith, hb, v))
            before) in
      elim (Bool-cases (ltb (length (candidates s.name_of o)) 2)) [
        | inl few ↦ rw few (record {
          kept_or_alone = λ x m. inl refl;
          parted = λ a b before ha hb v c.
              let two = Before-two a b (candidates s.name_of o) (here a b before ha hb v) in
              let wrong : ⊥ = cc in absurd wrong;
          calls = λ h. h;
        })
        | inr many ↦ rw many (
            update_signatures-Checked o (mark conflict (candidates s.name_of o) []) s
              (λ x m.
                let origin : member x (candidates s.name_of o) ≡ true =
                  mark-from conflict x (candidates s.name_of o) [] m in
                let there : (member x subprograms && named x) ≡ true =
                  sym (member-select named x subprograms) ∙ ap (member x) (sym found) ∙ origin in
                ground (arith, there))
              (λ a b before ha hb v c.
                mark-Before conflict a b (candidates s.name_of o) [] (here a b before ha hb v) c))
      ]
