-- ===== src/Support/FileTable/Open.antt =====
-- src/hif2scSupport/hif_verilog_standard.cpp: which files of the table are open.
use hif_backend.Prelude.{
  some-inj, ℕ, ◌≡◌, ◌≢◌, refl, sym, ap, ◌∙◌, Bool, true, false, Option, none, some, ◌==◌, ◌⊎◌, inl,
  inr, arith, Bool-cases, Option-cases,
}
use hif_backend.Support.FileTable.{
  Files, Mode, append, read_write, Outcome, done, exited, misused, set, use_file, with_file,
  fdisplay, fscanf, fflush, fclose, feof,
}

-- Every file of the table is open, and stands there for one descriptor only.
abbrev pub IsOpen : Files → Type 0
IsOpen s =
    ((fd f : ℕ) → s.io_map fd ≡ some f → s.is_open f ≡ true)
    × ((fd fd' f : ℕ) → s.io_map fd ≡ some f → s.io_map fd' ≡ some f → fd ≡ fd')

-- No pointer is misused, and the files that are left are as above.
abbrev pub IsFine : Outcome → Type 0
IsFine (done s) = IsOpen s
IsFine exited = exited ≡ exited
IsFine misused = misused ≡ exited

-- The C library opens a file at a pointer that is not in use.
abbrev pub IsFresh : (ℕ → Mode → (ℕ → Bool) → Option ℕ) → Type 0
IsFresh fdopen =
    (fd f : ℕ) (mode : Mode) (is_open : ℕ → Bool)
    → fdopen fd mode is_open ≡ some f
    → is_open f ≡ false

set_inv :
    {A : Type 0} (i j : ℕ) (a b : A) (f : ℕ → A)
    → set i a f j ≡ b
    → ((j ≡ i) × (a ≡ b)) ⊎ ((j ≢ i) × (f j ≡ b))
unfolding set
set_inv i j a b f h = elim (Bool-cases (j == i)) [
  | inl e ↦ inl (ground arith, rw e at h)
  | inr e ↦ inr (ground arith, rw e at h)
]

set-other : {A : Type 0} (i j : ℕ) (a : A) (f : ℕ → A) → j ≢ i → set i a f j ≡ f j
unfolding set
set-other i j a f h = ground arith

set-same : {A : Type 0} (i : ℕ) (a : A) (f : ℕ → A) → set i a f i ≡ a
unfolding set
set-same i a f = ground arith

set-true : (i j : ℕ) (f : ℕ → Bool) → (j ≡ i) ⊎ (f j ≡ true) → set i true f j ≡ true
unfolding set
set-true i j f h = ground arith

opened-IsOpen :
    (s : Files) (fd f : ℕ)
    → IsOpen s
    → s.is_open f ≡ false
    → IsOpen (record s { io_map = set fd (some f) s.io_map; is_open = set f true s.is_open })
opened-IsOpen s fd f (live, one) fresh = (
  (λ d g h. elim (set_inv fd d (some f) (some g) s.io_map h) [
    | inl p ↦ set-true f g s.is_open (inl (sym (some-inj f g p.1)))
    | inr p ↦ set-true f g s.is_open (inr (live d g p.1))
  ]),
  (λ d d' g h h'. elim (set_inv fd d (some f) (some g) s.io_map h) [
    | inl p ↦ elim (set_inv fd d' (some f) (some g) s.io_map h') [
      | inl q ↦ p.0 ∙ sym q.0
      | inr q ↦
          let lit = live d' g q.1 in
          let same = some-inj f g p.1 in
          let old = ap s.is_open same in let clash : false ≡ true = sym fresh ∙ old ∙ lit in cc
    ]
    | inr p ↦ elim (set_inv fd d' (some f) (some g) s.io_map h') [
      | inl q ↦
          let lit = live d g p.1 in
          let same = some-inj f g q.1 in
          let clash : false ≡ true = sym fresh ∙ ap s.is_open same ∙ lit in cc
      | inr q ↦ one d d' g p.1 q.1
    ]
  ]),
)

closed-IsOpen :
    (s : Files) (fd f : ℕ)
    → IsOpen s
    → s.io_map fd ≡ some f
    → IsOpen (record s { io_map = set fd none s.io_map; is_open = set f false s.is_open })
closed-IsOpen s fd f (live, one) here = (
  (λ d g h. elim (set_inv fd d none (some g) s.io_map h) [
    | inl p ↦ let clash = p.1 in cc
    | inr p ↦
        set-other f g false s.is_open
          (λ (e : g ≡ f). p.0 (one d fd f (p.1 ∙ ap (λ x. some x) e) here))
        ∙ live d g p.1
  ]),
  (λ d d' g h h'. elim (set_inv fd d none (some g) s.io_map h) [
    | inl p ↦ let clash = p.1 in cc
    | inr p ↦ elim (set_inv fd d' none (some g) s.io_map h') [
      | inl q ↦ let clash = q.1 in cc
      | inr q ↦ one d d' g p.1 q.1
    ]
  ]),
)

module _ (fdopen : ℕ → Mode → (ℕ → Bool) → Option ℕ) (fresh : IsFresh fdopen) where
  with_file-IsFine :
      (mode : Mode) (fd : ℕ) (s : Files) → IsOpen s → IsFine (with_file fdopen mode fd s)
  unfolding with_file use_file
  with_file-IsFine mode fd s (live, one) = elim (Option-cases (s.io_map fd)) [
    | inr (f, e) ↦ rw (with_file, e, use_file, live fd f e) (live, one)
    | inl e ↦ elim (Option-cases (fdopen fd mode s.is_open)) [
      | inl n ↦ rw (with_file, e, n) refl
      | inr (f, o) ↦
          let fine = opened-IsOpen s fd f (live, one) (fresh fd f mode s.is_open o) in
          rw (with_file, e, o, use_file, set-true f f s.is_open (inl refl)) fine
    ]
  ]

fflush-IsFine : (fd : ℕ) (s : Files) → IsOpen s → IsFine (fflush fd s)
unfolding fflush use_file
fflush-IsFine fd s (live, one) = elim (Option-cases (s.io_map fd)) [
  | inl e ↦ rw (fflush, e) (live, one)
  | inr (f, e) ↦ rw (fflush, e, use_file, live fd f e) (live, one)
]

fclose-IsFine : (fd : ℕ) (s : Files) → IsOpen s → IsFine (fclose fd s)
unfolding fclose
fclose-IsFine fd s (live, one) = elim (Option-cases (s.io_map fd)) [
  | inl e ↦ rw (fclose, e) (live, one)
  | inr (f, e) ↦ rw (fclose, e, live fd f e) (closed-IsOpen s fd f (live, one) e)
]

-- Let `fdopen` open a file only at a pointer that is not in use. In a table whose files are open and
-- stand there once, whatever the descriptor is, `$fdisplay`, `$fscanf`, `$fflush` and `$fclose` use
-- no pointer that is not open, and leave such a table unless they exit.
pub tasks-IsFine :
    (fdopen : ℕ → Mode → (ℕ → Bool) → Option ℕ) (fd : ℕ) (s : Files)
    → IsFresh fdopen
    → IsOpen s
    → IsFine (fdisplay fdopen fd s)
      × IsFine (fscanf fdopen fd s)
      × IsFine (fflush fd s)
      × IsFine (fclose fd s)
unfolding fdisplay fscanf
tasks-IsFine fdopen fd s fresh h = (
  with_file-IsFine fdopen fresh append fd s h,
  with_file-IsFine fdopen fresh read_write fd s h,
  fflush-IsFine fd s h,
  fclose-IsFine fd s h,
)

-- In a table whose files are open and stand there once, `$fclose` succeeds, and `$feof` of the same descriptor then
-- answers 0, whatever the C library says of the file.
feof-fclose :
    (at_end : ℕ → ℕ) (fd : ℕ) (s : Files)
    → IsOpen s
    → (t : Files) × (fclose fd s ≡ done t) × (feof at_end fd t ≡ some 0)
unfolding fclose feof
feof-fclose at_end fd s (live, one) = elim (Option-cases (s.io_map fd)) [
  | inl e ↦ (s, rw (fclose, e) refl, rw (feof, e) refl)
  | inr (f, e) ↦
      let gone = set-same fd none s.io_map in
      (
        record s { io_map = set fd none s.io_map; is_open = set f false s.is_open },
        rw (fclose, e, live fd f e) refl,
        rw (feof, gone) refl,
      )
]
