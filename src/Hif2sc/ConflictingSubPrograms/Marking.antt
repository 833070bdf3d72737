-- ===== src/Hif2sc/ConflictingSubPrograms/Marking.antt =====
-- src/hif2sc/PreRefine_conflictingSubPrograms.cpp: the set that the loops over pairs fill.
use hif_backend.Prelude.{
  ℕ, ◌≡◌, ◌⊎◌, refl, sym, ap, ◌∙◌, Bool, true, false, ◌&&◌, ◌||◌, List, [], ◌∷◌, ◌==◌,
  if◌then◌else◌, arith, Bool-cases, inl, inr, ==_iff,
}
use hif_backend.Hif2sc.ConflictingSubPrograms.{member, insert, mark_with, mark}

-- The elements that pass a test, in order.
abbrev pub select : (ℕ → Bool) → List ℕ → List ℕ
select p [] = []
select p (x ∷ xs) = if p x then x ∷ select p xs else select p xs

-- One element stands before another.
abbrev pub Before : ℕ → ℕ → List ℕ → Type 0
Before a b [] = ⊥
Before a b (x ∷ xs) = (((a == x) && member b xs) ≡ true) ⊎ Before a b xs

abbrev pub Distinct : List ℕ → Type 0
Distinct [] = Unit
Distinct (x ∷ xs) = (member x xs ≡ false) × Distinct xs

and-both : (b c : Bool) → (b && c) ≡ true → (b ≡ true) × (c ≡ true)
and-both b c h = ground arith

pub test-eq : (p : ℕ → Bool) (x y : ℕ) → (x == y) ≡ true → p x ≡ p y
test-eq p x y e = ap p ((==_iff x y).0 e)

pub member-select :
    (p : ℕ → Bool) (x : ℕ) (xs : List ℕ) → member x (select p xs) ≡ (member x xs && p x)
member-select p x [] = refl
member-select p x (y ∷ ys) = ground (arith, member-select p x ys, test-eq p x y)

pub Before-select :
    (p : ℕ → Bool) (a b : ℕ) (xs : List ℕ)
    → p a ≡ true
    → p b ≡ true
    → Before a b xs
    → Before a b (select p xs)
Before-select p a b [] ha hb h = elim h [ ]
Before-select p a b (x ∷ xs) ha hb (inr later) = elim (Bool-cases (p x)) [
  | inl e ↦ rw e (inr (Before-select p a b xs ha hb later))
  | inr n ↦ rw n (Before-select p a b xs ha hb later)
]
Before-select p a b (x ∷ xs) ha hb (inl h) =
    let (e, m) = and-both (a == x) (member b xs) h in
    let px : p x ≡ true = sym (test-eq p a x e) ∙ ha in
    rw px (inl (rw (e, member-select p b xs, m, hb) refl))

pub Before-members :
    (a b : ℕ) (xs : List ℕ) → Before a b xs → (member a xs ≡ true) × (member b xs ≡ true)
Before-members a b [] h = elim h [ ]
Before-members a b (x ∷ xs) (inl h) = (ground arith, ground arith)
Before-members a b (x ∷ xs) (inr h) =
    let (ma, mb) = Before-members a b xs h in (ground arith, ground arith)

member-eq : (a x : ℕ) (xs : List ℕ) → (a == x) ≡ true → member a xs ≡ member x xs
member-eq a x xs e = ap (λ y. member y xs) ((==_iff a x).0 e)

pub Before-differ : (a b : ℕ) (xs : List ℕ) → Distinct xs → Before a b xs → (a == b) ≡ false
Before-differ a b [] d h = elim h [ ]
Before-differ a b (x ∷ xs) d (inr h) = Before-differ a b xs d.1 h
Before-differ a b (x ∷ xs) (fresh, d) (inl h) =
    let (e, m) = and-both (a == x) (member b xs) h in ground (arith, member-eq b x xs, e, m, fresh)

pub member-insert : (x y : ℕ) (ys : List ℕ) → member x (insert y ys) ≡ (x == y || member x ys)
unfolding insert
member-insert x y [] = ground arith
member-insert x y (z ∷ zs) = ground (arith, member-insert x y zs)

module _ (conflict : ℕ → ℕ → Bool) where
  mark_with-keeps :
      (x i : ℕ) (js m : List ℕ) → member x m ≡ true → member x (mark_with conflict i js m) ≡ true
  unfolding mark_with
  mark_with-keeps x i [] m h = h
  mark_with-keeps x i (j ∷ js) m h =
      mark_with-keeps x i js (if conflict i j then insert j (insert i m) else m)
        (ground (arith, member-insert x j (insert i m), member-insert x i m))

  mark_with-marks :
      (i j : ℕ) (js m : List ℕ)
      → member j js ≡ true
      → conflict i j ≡ true
      → (member i (mark_with conflict i js m) ≡ true)
        × (member j (mark_with conflict i js m) ≡ true)
  unfolding mark_with
  mark_with-marks i j [] m h c = let wrong : ⊥ = cc in absurd wrong
  mark_with-marks i j (k ∷ js) m h c = elim (Bool-cases (j == k)) [
    | inl e ↦
        let ck : conflict i k ≡ true = sym (test-eq (conflict i) j k e) ∙ c in
        rw ck (
          mark_with-keeps i i js (insert k (insert i m))
              (ground (arith, member-insert i k (insert i m), member-insert i i m)),
          mark_with-keeps j i js (insert k (insert i m))
              (ground (arith, member-insert j k (insert i m), e)),
        )
    | inr n ↦
        mark_with-marks i j js (if conflict i k then insert k (insert i m) else m) (ground arith) c
  ]

  mark_with-from :
      (x i : ℕ) (js m : List ℕ)
      → member x (mark_with conflict i js m) ≡ true
      → (member x m || x == i || member x js) ≡ true
  unfolding mark_with
  mark_with-from x i [] m h = ground arith
  mark_with-from x i (j ∷ js) m h =
      let later = mark_with-from x i js (if conflict i j then insert j (insert i m) else m) h in
      ground (arith, later, member-insert x j (insert i m), member-insert x i m)

  mark-keeps : (x : ℕ) (cs m : List ℕ) → member x m ≡ true → member x (mark conflict cs m) ≡ true
  unfolding mark
  mark-keeps x [] m h = h
  mark-keeps x (i ∷ cs) m h =
      mark-keeps x cs (mark_with conflict i cs m) (mark_with-keeps x i cs m h)

  pub mark-Before :
      (a b : ℕ) (cs m : List ℕ)
      → Before a b cs
      → conflict a b ≡ true
      → (member a (mark conflict cs m) ≡ true) × (member b (mark conflict cs m) ≡ true)
  unfolding mark
  mark-Before a b [] m h c = elim h [ ]
  mark-Before a b (i ∷ cs) m (inr h) c = mark-Before a b cs (mark_with conflict i cs m) h c
  mark-Before a b (i ∷ cs) m (inl h) c =
      let (e, k) = and-both (a == i) (member b cs) h in
      let same : a ≡ i = (==_iff a i).0 e in
      let c' : conflict i b ≡ true = rw (← same) c in
      let (p, q) = mark_with-marks i b cs m k c' in
      (
        rw same (mark-keeps i cs (mark_with conflict i cs m) p),
        mark-keeps b cs (mark_with conflict i cs m) q,
      )

  pub mark-from :
      (x : ℕ) (cs m : List ℕ)
      → member x (mark conflict cs m) ≡ true
      → (member x m || member x cs) ≡ true
  unfolding mark
  mark-from x [] m h = ground arith
  mark-from x (i ∷ cs) m h =
      let later = mark-from x cs (mark_with conflict i cs m) h in
      let origin = mark_with-from x i cs m in ground (arith, later, origin)
