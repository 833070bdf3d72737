-- ===== src/Hif2sc/ConflictingSubPrograms/Renaming.antt =====
-- src/hif2sc/PreRefine_conflictingSubPrograms.cpp: what a renaming does to names and calls.
use hif_backend.Prelude.{
  ℕ, ◌≡◌, refl, sym, ap, ◌∙◌, Bool, true, false, ◌||◌, List, [], ◌∷◌, ◌++◌, map, Bytes, codes,
  bytes_eq, ◌==◌, if◌then◌else◌, arith, Bool-cases, inl, inr, ==_iff,
}
use mathlib.Core.Path.{subst}
use hif_backend.Hif2sc.ConflictingSubPrograms.{State, member, set_calls, rename, rename_all}

abbrev pub has : Bytes → List Bytes → Bool
has n [] = false
has n (m ∷ ms) = bytes_eq m n || has n ms

bytes_eq_sym : (s t : Bytes) → bytes_eq s t ≡ bytes_eq t s
bytes_eq_sym [] [] = refl
bytes_eq_sym [] (d ∷ t) = refl
bytes_eq_sym (c ∷ s) [] = refl
bytes_eq_sym (c ∷ s) (d ∷ t) = ground (arith, bytes_eq_sym s t)

same-name : (f : ℕ → Bytes) (x y : ℕ) → (x == y) ≡ true → f x ≡ f y
same-name f x y e = ap f ((==_iff x y).0 e)

or-first : (b c : Bool) → (b || c) ≡ false → b ≡ false
or-first b c h = ground arith

or-last : (b c : Bool) → (b || c) ≡ false → c ≡ false
or-last b c h = ground arith

eq_refl : (d : ℕ) → (d == d) ≡ true
eq_refl d = ground arith

nested :
    (b c : Bool) (n t : Bytes) → (if b then n else if c then n else t) ≡ (if c || b then n else t)
nested true true n t = refl
nested true false n t = refl
nested false true n t = refl
nested false false n t = refl

has-map :
    (f : ℕ → Bytes) (n : Bytes) (x : ℕ) (xs : List ℕ)
    → member x xs ≡ true
    → has n (map f xs) ≡ false
    → bytes_eq (f x) n ≡ false
has-map f n x [] h e = let wrong : ⊥ = cc in absurd wrong
has-map f n x (y ∷ ys) h e = elim (Bool-cases (x == y)) [
  | inl s ↦ rw (same-name f x y s) (or-first (bytes_eq (f y) n) _ e)
  | inr d ↦ has-map f n x ys (ground arith) (or-last (bytes_eq (f y) n) _ e)
]

set_calls_lem :
    (cs : List ℕ) (n : Bytes) (call : ℕ → Bytes) (x : ℕ)
    → set_calls cs n call x ≡ (if member x cs then n else call x)
unfolding set_calls
set_calls_lem [] n call x = refl
set_calls_lem (c ∷ cs) n call x =
    set_calls_lem cs n (λ y. if y == c then n else call y) x
    ∙ nested (member x cs) (x == c) n (call x)

module _ (references : ℕ → List ℕ) (subprograms : List ℕ) (fresh : List Bytes → Bytes → Bytes)
    (fresh-new : (used : List Bytes) (base : Bytes) → has (fresh used base) used ≡ false) where
  -- No other subprogram has the name of the one.
  abbrev pub Isolated : State → ℕ → Type 0
  Isolated s d =
      (x : ℕ)
      → member x subprograms ≡ true
      → (x == d) ≡ false
      → bytes_eq (s.name_of x) (s.name_of d) ≡ false

  new_name : ℕ → State → Bytes
  new_name d s = fresh (map s.name_of subprograms) (s.name_of d ++ codes "_renamed")

  new_name-other :
      (d : ℕ) (s : State) (x : ℕ)
      → member x subprograms ≡ true
      → bytes_eq (s.name_of x) (new_name d s) ≡ false
  unfolding new_name
  new_name-other d s x h = has-map s.name_of _ x subprograms h (fresh-new _ _)

  rename-name :
      (d : ℕ) (s : State) (x : ℕ)
      → (rename references subprograms fresh d s).name_of x
        ≡ (if x == d then new_name d s else s.name_of x)
  unfolding rename new_name
  rename-name d s x = refl

  rename-Isolated_own : (d : ℕ) (s : State) → Isolated (rename references subprograms fresh d s) d
  rename-Isolated_own d s x h n =
      rw (rename-name d s x, rename-name d s d, n, eq_refl d) (new_name-other d s x h)

  own-Isolated :
      (e : ℕ) (s : State) (d : ℕ)
      → (d == e) ≡ true
      → Isolated (rename references subprograms fresh e s) d
  own-Isolated e s d t =
      let same : d ≡ e = (==_iff d e).0 t in
      subst (λ y. Isolated (rename references subprograms fresh e s) y) (sym same)
        (rename-Isolated_own e s)

  rename-Isolated :
      (e : ℕ) (s : State) (d : ℕ)
      → member d subprograms ≡ true
      → Isolated s d
      → Isolated (rename references subprograms fresh e s) d
  rename-Isolated e s d m i x h n = elim (Bool-cases (d == e)) [
    | inl t ↦ own-Isolated e s d t x h n
    | inr t ↦ elim (Bool-cases (x == e)) [
      | inl u ↦
          rw (rename-name e s x, rename-name e s d, t, u)
            (bytes_eq_sym (new_name e s) (s.name_of d) ∙ new_name-other e s d m)
      | inr u ↦ rw (rename-name e s x, rename-name e s d, t, u) (i x h n)
    ]
  ]

  pub rename_all-kept :
      (ds : List ℕ) (s : State) (x : ℕ)
      → member x ds ≡ false
      → (rename_all references subprograms fresh ds s).name_of x ≡ s.name_of x
  unfolding rename_all
  rename_all-kept [] s x h = refl
  rename_all-kept (d ∷ ds) s x h =
      rename_all-kept ds (rename references subprograms fresh d s) x (or-last (x == d) _ h)
      ∙ rename-name d s x
      ∙ ap (λ b. if b then new_name d s else s.name_of x) (or-first (x == d) _ h)

  pub rename_all-keeps :
      (ds : List ℕ) (s : State) (d : ℕ)
      → member d subprograms ≡ true
      → Isolated s d
      → Isolated (rename_all references subprograms fresh ds s) d
  unfolding rename_all
  rename_all-keeps [] s d m i = i
  rename_all-keeps (e ∷ ds) s d m i =
      rename_all-keeps ds (rename references subprograms fresh e s) d m (rename-Isolated e s d m i)

  pub rename_all-Isolated :
      (ds : List ℕ) (s : State) (d : ℕ)
      → member d ds ≡ true
      → member d subprograms ≡ true
      → Isolated (rename_all references subprograms fresh ds s) d
  unfolding rename_all
  rename_all-Isolated [] s d h m = let wrong : ⊥ = cc in absurd wrong
  rename_all-Isolated (e ∷ ds) s d h m = elim (Bool-cases (d == e)) [
    | inl t ↦
        rename_all-keeps ds (rename references subprograms fresh e s) d m (own-Isolated e s d t)
    | inr n ↦ rename_all-Isolated ds (rename references subprograms fresh e s) d (ground arith) m
  ]

  -- Each call has the name of the subprogram that it is of.
  module _ (target : ℕ → ℕ)
      (references-of : (c d : ℕ) → member c (references d) ≡ (target c == d)) where
    abbrev pub Agrees : State → Type 0
    Agrees s = (c : ℕ) → s.call_name c ≡ s.name_of (target c)

    rename-Agrees :
        (d : ℕ) (s : State) → Agrees s → Agrees (rename references subprograms fresh d s)
    unfolding rename
    rename-Agrees d s a c =
        set_calls_lem (references d) _ s.call_name c ∙ rw (references-of c d, a c) refl

    pub rename_all-Agrees :
        (ds : List ℕ) (s : State) → Agrees s → Agrees (rename_all references subprograms fresh ds s)
    unfolding rename_all
    rename_all-Agrees [] s a = a
    rename_all-Agrees (d ∷ ds) s a =
        rename_all-Agrees ds (rename references subprograms fresh d s) (rename-Agrees d s a)
