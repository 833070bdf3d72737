-- ===== src/Hif2vhdl/IdentifierNames/Renaming/Agreement.antt =====
-- src/hif2vhdl/PreRefine_identifierNames.cpp: the names of a declaration and of its references over
-- the visits of the pass.
use Prim.Native.Nat.{ℕ}
use hif_backend.Prelude.{
  ◌≡◌, ◌≢◌, refl, sym, ◌∙◌, Bool-cases, false, true, Bool, ◌&&◌, ◌||◌, List, [], ◌∷◌, some, Bytes,
  ◌==◌, ==_iff, if◌then◌else◌, arith, ◌⊎◌, inl, inr, All, is_empty, bytes_eq, bytes_eq→eq, not, any,
}
use hif_backend.Hif2vhdl.IdentifierNames.Names.{fixed_name, fixed_name_idem, fixed_name-nil}
use hif_backend.Hif2vhdl.IdentifierNames.Renaming.{
  Kind, view_reference, declaration, other, Symbol, not_a_symbol, undeclared, library_instance,
  declared, Visited, Names, update, update_all, rename_as, rename, is_exempt, after_visit,
  after_visits,
}

abbrev pub member : ℕ → List ℕ → Bool
member x [] = false
member x (r ∷ rs) = x == r || member x rs

-- A visit that is not of the declaration `d` renames neither `d` nor, as a declaration, one of its
-- references or what these references are.
abbrev pub Foreign : ℕ → List ℕ → ℕ → Kind → Type 0
Foreign d refs o view_reference = o ≢ d
Foreign d refs o (declaration rs) =
    (o ≢ d) × (member o refs ≡ false) × All (λ r. (r ≢ d) × (member r refs ≡ false)) rs
Foreign d refs o other = o ≢ d

-- What the map of references says of the tree: `refs` are the references of `d`, and of nothing
-- else, and every visited symbol has its declaration.
abbrev pub Respects : ℕ → List ℕ → Visited → Type 0
Respects d refs v =
    (v.symbol ≢ undeclared)
    × ((v.object ≡ d) × (v.kind ≡ declaration refs) ⊎ Foreign d refs v.object v.kind)

-- The visit reaches the renaming.
unfoldable pub touches : Symbol → Bool
unfolding is_exempt
touches not_a_symbol = true
touches undeclared = false
touches library_instance = false
touches (declared d) = not (is_exempt d)

update_all-other :
    (f : ℕ → Bytes) (rs : List ℕ) (n : Bytes) (x : ℕ)
    → member x rs ≡ false
    → update_all f rs n x ≡ f x
unfolding update_all
update_all-other f [] n x h = refl
update_all-other f (r ∷ rs) n x h = ground (arith, update_all-other (update f r n) rs n x)

update_all-same :
    (f : ℕ → Bytes) (rs : List ℕ) (n : Bytes) (x : ℕ) → f x ≡ n → update_all f rs n x ≡ n
unfolding update_all
update_all-same f [] n x h = h
update_all-same f (r ∷ rs) n x h = ground (arith, update_all-same (update f r n) rs n x)

update_all-member :
    (f : ℕ → Bytes) (rs : List ℕ) (n : Bytes) (x : ℕ) → member x rs ≡ true → update_all f rs n x ≡ n
unfolding update_all
update_all-member f [] n x h = cc
update_all-member f (r ∷ rs) n x h =
    ground (arith, update_all-same (update f r n) rs n x, update_all-member (update f r n) rs n x)

is_empty→eq : (s : Bytes) → is_empty s ≡ true → s ≡ []
is_empty→eq [] h = refl
is_empty→eq (c ∷ s) h = cc

module _ (d : ℕ) (refs : List ℕ) where
  member-foreign :
      (rs : List ℕ) → All (λ r. (r ≢ d) × (member r refs ≡ false)) rs → member d rs ≡ false
  member-foreign [] h = refl
  member-foreign (r ∷ rs) h = ground (arith, member-foreign rs h.1, λ (e : r ≡ d). h.0.0 e)

  member-foreign_ref :
      (x : ℕ) (rs : List ℕ)
      → member x refs ≡ true
      → All (λ r. (r ≢ d) × (member r refs ≡ false)) rs
      → member x rs ≡ false
  member-foreign_ref x [] m h = refl
  member-foreign_ref x (r ∷ rs) m h = elim (Bool-cases (x == r)) [
    | inl e ↦ cc ((==_iff x r).0 e, h.0.1)
    | inr n ↦ rw n (member-foreign_ref x rs m h.1)
  ]

  rename_as-Foreign :
      (k : Kind) (o : ℕ) (s : Names) → Foreign d refs o k → (rename_as k o s).name d ≡ s.name d
  unfolding rename_as
  rename_as-Foreign view_reference o s h = ground (arith, λ (e : o ≡ d). h e)
  rename_as-Foreign (declaration rs) o s h = ground (
    arith,
    h.0,
    update_all-other (update s.name o (fixed_name (s.name o))) rs (fixed_name (s.name o)) d,
    member-foreign rs h.2,
  )
  rename_as-Foreign other o s h = ground (arith, λ (e : o ≡ d). h e)

  rename_as-Foreign_ref :
      (k : Kind) (o : ℕ) (s : Names) (x : ℕ)
      → Foreign d refs o k
      → member x refs ≡ true
      → ((rename_as k o s).name x ≡ s.name x) ⊎ ((rename_as k o s).name x ≡ fixed_name (s.name x))
  unfolding rename_as
  rename_as-Foreign_ref view_reference o s x h m = ground arith
  rename_as-Foreign_ref (declaration rs) o s x h m = ground (
    arith,
    update_all-other (update s.name o (fixed_name (s.name o))) rs (fixed_name (s.name o)) x,
    member-foreign_ref x rs m h.2,
  )
  rename_as-Foreign_ref other o s x h m = ground arith

  -- The names before the declaration is visited: its own is the old one, and each reference has
  -- the old name or the new one.
  abbrev pub Fresh : Bytes → Names → Type 0
  Fresh n s =
      (s.name d ≡ n) × ((x : ℕ) → member x refs ≡ true → (s.name x ≡ n) ⊎ (s.name x ≡ fixed_name n))

  -- The names after it: all are the new one.
  abbrev pub Settled : Bytes → Names → Type 0
  Settled n s =
      (s.name d ≡ fixed_name n) × ((x : ℕ) → member x refs ≡ true → s.name x ≡ fixed_name n)

  Fresh-of_Settled : (n : Bytes) (s : Names) → Settled n s → Fresh (fixed_name n) s
  Fresh-of_Settled n s (hd, hr) = (hd, λ x m. inl (hr x m))

  -- A name that the repair leaves alone is settled from the start.
  Settled-of_fixed : (n : Bytes) (s : Names) → fixed_name n ≡ n → Fresh n s → Settled n s
  Settled-of_fixed n s e (hd, hr) = (hd ∙ sym e, λ x m. ground (arith, hr x m, e))

  rename_as-own : (n : Bytes) (s : Names) → Fresh n s → Settled n (rename_as (declaration refs) d s)
  unfolding rename_as
  rename_as-own n s (hd, hr) = elim (Bool-cases (bytes_eq (fixed_name n) n)) [
    | inl y ↦
        let e : fixed_name n ≡ n = bytes_eq→eq (fixed_name n) n y in
        (ground (arith, e), λ x m. ground (arith, hr x m, e))
    | inr c ↦
        let u : ℕ → Bytes = update s.name d (fixed_name n) in
        (
          ground (arith, update_all-same u refs (fixed_name n) d),
          λ x m. ground (arith, update_all-member u refs (fixed_name n) x m),
        )
  ]

  rename-own :
      (n : Bytes) (v : Visited) (s : Names)
      → v.object ≡ d
      → v.kind ≡ declaration refs
      → Fresh n s
      → Settled n (rename v s)
  unfolding rename
  rename-own n v s ho hk h = elim (Bool-cases (is_empty (s.name v.object))) [
    | inl y ↦
        let e : n ≡ [] = sym h.0 ∙ rw ho at (is_empty→eq (s.name v.object) y) in
        rw y (Settled-of_fixed n s (rw e fixed_name-nil) h)
    | inr c ↦ rw (c, ho, hk) (rename_as-own n s h)
  ]

  rename-Foreign :
      (n : Bytes) (v : Visited) (s : Names)
      → Foreign d refs v.object v.kind
      → Fresh n s
      → Fresh n (rename v s)
  unfolding rename
  rename-Foreign n v s hf (hd, hr) = elim (Bool-cases (is_empty (s.name v.object))) [
    | inl y ↦ rw y (hd, hr)
    | inr c ↦ rw c (
      rename_as-Foreign v.kind v.object s hf ∙ hd,
      λ x m.
          ground (arith, hr x m, rename_as-Foreign_ref v.kind v.object s x hf m, fixed_name_idem n),
    )
  ]

  -- What a visit that fails no assertion leaves.
  settle : Visited → Names → Names
  settle v s = if touches v.symbol then rename v s else s

  after_visit-settle :
      (v : Visited) (s : Names) → v.symbol ≢ undeclared → after_visit v s ≡ some (settle v s)
  unfolding after_visit settle touches
  after_visit-settle v s h = ground (arith, λ (e : v.symbol ≡ undeclared). h e)

  after_visits-cons :
      (v : Visited) (vs : List Visited) (s : Names)
      → v.symbol ≢ undeclared
      → after_visits (v ∷ vs) s ≡ after_visits vs (settle v s)
  unfolding after_visits
  after_visits-cons v vs s h = rw (after_visit-settle v s h, after_visits)

  Foreign-ne : (k : Kind) (o : ℕ) → Foreign d refs o k → o ≢ d
  Foreign-ne view_reference o h = h
  Foreign-ne (declaration rs) o h = h.0
  Foreign-ne other o h = h

  rename-Settled :
      (n : Bytes) (v : Visited) (s : Names)
      → Respects d refs v
      → Settled n s
      → Settled n (rename v s)
  rename-Settled n v s (_, inl (ho, hk)) h =
      let p = rename-own (fixed_name n) v s ho hk (Fresh-of_Settled n s h) in
      (p.0 ∙ fixed_name_idem n, λ x m. p.1 x m ∙ fixed_name_idem n)
  rename-Settled n v s (_, inr hf) h =
      let p = rename-Foreign (fixed_name n) v s hf (Fresh-of_Settled n s h) in
      (p.0, λ x m. ground (arith, p.1 x m, fixed_name_idem n))

  settle-Settled :
      (n : Bytes) (v : Visited) (s : Names)
      → Respects d refs v
      → Settled n s
      → Settled n (settle v s)
  unfolding settle
  settle-Settled n v s hv h = elim (Bool-cases (touches v.symbol)) [
    | inl y ↦ rw y (rename-Settled n v s hv h)
    | inr c ↦ rw c h
  ]

  settle-Fresh :
      (n : Bytes) (v : Visited) (s : Names)
      → Respects d refs v
      → (v.object == d && touches v.symbol) ≡ false
      → Fresh n s
      → Fresh n (settle v s)
  unfolding settle
  settle-Fresh n v s (_, inl (ho, hk)) m h =
      let quiet : touches v.symbol ≡ false = ground arith in rw quiet h
  settle-Fresh n v s (_, inr hf) m h = elim (Bool-cases (touches v.symbol)) [
    | inl y ↦ rw y (rename-Foreign n v s hf h)
    | inr c ↦ rw c h
  ]

  settle-own :
      (n : Bytes) (v : Visited) (s : Names)
      → Respects d refs v
      → (v.object == d && touches v.symbol) ≡ true
      → Fresh n s
      → Settled n (settle v s)
  unfolding settle
  settle-own n v s (_, inl (ho, hk)) m h =
      let reached : touches v.symbol ≡ true = ground arith in rw reached (rename-own n v s ho hk h)
  settle-own n v s (_, inr hf) m h =
      let other_object : v.object ≢ d = Foreign-ne v.kind v.object hf in absurd (ground arith)

  Settled-after_visits :
      (n : Bytes) (vs : List Visited) (s : Names)
      → All (Respects d refs) vs
      → Settled n s
      → (t : Names) × (after_visits vs s ≡ some t) × Settled n t
  unfolding after_visits
  Settled-after_visits n [] s hv h = (s, refl, h)
  Settled-after_visits n (v ∷ vs) s (hv, hvs) h =
      let (t, run, p) = Settled-after_visits n vs (settle v s) hvs (settle-Settled n v s hv h) in
      (t, after_visits-cons v vs s hv.0 ∙ run, p)

  -- Let every visited symbol have its declaration, and let `refs` be the references of the
  -- declaration `d` and of nothing else. If `d` is visited at least once without exemption, and it
  -- and its references have the name n at first, then the pass ends without a failed assertion and
  -- leaves `d` and all its references with the repaired name, in whatever order the symbols are
  -- visited and however often.
  pub after_visits-agree :
      (n : Bytes) (vs : List Visited) (s : Names)
      → All (Respects d refs) vs
      → any (λ v. v.object == d && touches v.symbol) vs ≡ true
      → Fresh n s
      → (t : Names) × (after_visits vs s ≡ some t)
        × (t.name d ≡ fixed_name n)
        × ((x : ℕ) → member x refs ≡ true → t.name x ≡ fixed_name n)
  unfolding after_visits
  after_visits-agree n [] s hv m h = cc
  after_visits-agree n (v ∷ vs) s (hv, hvs) m h =
      elim (Bool-cases (v.object == d && touches v.symbol)) [
        | inl y ↦
            let (t, run, p) =
              Settled-after_visits n vs (settle v s) hvs (settle-own n v s hv y h) in
            (t, after_visits-cons v vs s hv.0 ∙ run, p.0, p.1)
        | inr c ↦
            let (t, run, p, q) =
              after_visits-agree n vs (settle v s) hvs (rw (c, any) at m)
                (settle-Fresh n v s hv c h) in
            (t, after_visits-cons v vs s hv.0 ∙ run, p, q)
      ]
