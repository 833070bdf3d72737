-- ===== src/Support/After/Pending.antt =====
-- src/hif2scSupport/hif_after.cpp: the objects and the table that lists them, under each operation.
use hif_backend.Prelude.{
  some-inj, ℕ, ◌≡◌, ◌≢◌, refl, sym, ap, ◌∙◌, true, false, Option, none, some, ◌==◌, arith,
  Bool-cases, Option-cases, inl, inr,
}
use hif_backend.Support.After.{
  Key, After, Store, put, put_key, disable, register, unregister, construct, copy, destroy,
}
use hif_backend.Support.After.Lookup.{
  key_cases, put-same, put-other, put_key-same, put_key-other, same_or_not,
}

-- The table leads to objects that are alive and have the place and time they are listed at.
abbrev pub IsListed : Store → Type 0
IsListed s =
    (k : Key) (i : ℕ) → s.after_map k ≡ some i → (o : After) × (s.objects i ≡ some o) × (o.key ≡ k)

-- Every active object, that at the address `new` apart, is listed.
abbrev IsPendingBut : (ℕ → Type 0) → Store → Type 0
IsPendingBut P s =
    (i : ℕ) (o : After)
    → P i
    → s.objects i ≡ some o
    → o.is_active ≡ true
    → s.after_map o.key ≡ some i

abbrev IsPending : Store → Type 0
IsPending s =
    (i : ℕ) (o : After) → s.objects i ≡ some o → o.is_active ≡ true → s.after_map o.key ≡ some i

abbrev pub IsSound : Store → Type 0
IsSound s = IsListed s × IsPending s

-- No other active object has its place and time.
abbrev IsAlone : ℕ → After → Store → Type 0
IsAlone i o s =
    (j : ℕ) (q : After) → j ≢ i → s.objects j ≡ some q → q.is_active ≡ true → q.key ≢ o.key

list_at : ℕ → Key → Store → Store
list_at i k s = record s { after_map = put_key k (some i) s.after_map }

list_at-IsSound :
    (s : Store) (i : ℕ) (o : After)
    → IsListed s
    → IsPendingBut (λ j. j ≢ i) s
    → s.objects i ≡ some o
    → IsAlone i o s
    → IsSound (list_at i o.key s)
unfolding list_at
list_at-IsSound s i o listed pending here alone = (
  (λ l j h. elim (key_cases l o.key) [
    | inl p ↦
        let e = sym (put_key-same o.key (some i) s.after_map) ∙ rw p.0 at h in
        (o, rw (some-inj i j e) at here, sym p.0)
    | inr p ↦ listed l j (sym (put_key-other o.key l (some i) s.after_map p.0) ∙ h)
  ]),
  (λ j q a act. elim (same_or_not j i) [
    | inl e ↦
        let same = some-inj q o (sym a ∙ ap s.objects e ∙ here) in
        rw (same, e) (put_key-same o.key (some i) s.after_map)
    | inr n ↦
        put_key-other o.key q.key (some i) s.after_map (alone j q n a act) ∙ pending j q n a act
  ]),
)

idle : After → After
idle o = record o { is_active = false }

disable_at : ℕ → After → Store → Store
disable_at j q s = record s { objects = put j (some (idle q)) s.objects }

module _ (s : Store) (i : ℕ) (o q : After) (other : ℕ) (listed : IsListed s)
    (pending : IsPendingBut (λ j. j ≢ i) s) (e : s.after_map o.key ≡ some other)
    (alive : s.objects other ≡ some q) where
  disable_at-IsListed : IsListed (disable_at other q s)
  unfolding disable_at idle
  disable_at-IsListed l j h =
      let (p, al, k) = listed l j h in
      elim (same_or_not j other) [
        | inl x ↦
            let same = some-inj p q (sym al ∙ ap s.objects x ∙ alive) in
            (idle q, rw x (put-same other _ s.objects), rw same at k)
        | inr n ↦ (p, put-other other j _ s.objects n ∙ al, k)
      ]

  -- An object that is active after it was so before, and is another one.
  still_active :
      (j : ℕ) (p : After)
      → (disable_at other q s).objects j ≡ some p
      → p.is_active ≡ true
      → (j ≢ other) × (s.objects j ≡ some p)
  unfolding disable_at idle
  still_active j p a act = elim (same_or_not j other) [
    | inl x ↦
        let same =
          some-inj p (idle q)
            (sym a ∙ ap (put other (some (idle q)) s.objects) x ∙ put-same other _ s.objects) in
        let lit : false ≡ true = rw same at act in cc
    | inr n ↦ (n, sym (put-other other j _ s.objects n) ∙ a)
  ]

-- Whatever is put at a free address and registered for its key, the table is sound again.
register-IsSound :
    (s : Store) (i : ℕ) (o : After)
    → IsListed s
    → IsPendingBut (λ j. j ≢ i) s
    → s.objects i ≡ some o
    → ((k : Key) → s.after_map k ≢ some i)
    → (t : Store) × (register i o.key s ≡ some t) × IsSound t
unfolding register disable list_at disable_at idle
register-IsSound s i o listed pending here unlisted = elim (Option-cases (s.after_map o.key)) [
  | inl e ↦
      let alone : IsAlone i o s = λ j q n a act x. let p = pending j q n a act in cc in
      (list_at i o.key s, rw (register, e) refl, list_at-IsSound s i o listed pending here alone)
  | inr (other, e) ↦
      let (q, alive, k) = listed o.key other e in
      let kept : i ≢ other = λ (x : i ≡ other). unlisted o.key (e ∙ ap (λ j. some j) (sym x)) in
      let t = disable_at other q s in
      let before = still_active s i o q other listed pending e alive in
      let alone : IsAlone i o t = λ j p n a act x.
        let (m, b) = before j p a act in
        let l = pending j p n b act in m (some-inj j other (sym l ∙ ap s.after_map x ∙ e)) in
      (
        list_at i o.key t,
        rw (register, e, disable, alive) refl,
        list_at-IsSound t i o (disable_at-IsListed s i o q other listed pending e alive)
            (λ j p n a act. pending j p n (before j p a act).1 act)
            (put-other other i _ s.objects kept ∙ here) alone,
      )
]

put_in : ℕ → Option After → Store → Store
put_in i o s = record s { objects = put i o s.objects }

register_new-IsSound :
    (s : Store) (i : ℕ) (o : After)
    → IsSound s
    → s.objects i ≡ none
    → (t : Store) × (register i o.key (put_in i (some o) s) ≡ some t) × IsSound t
unfolding put_in
register_new-IsSound s i o (listed, pending) free =
    register-IsSound (put_in i (some o) s) i o
      (λ l j h.
        let (q, a, e) = listed l j h in
        (q, put-other i j _ s.objects (λ (x : j ≡ i). let y = ap s.objects x in cc) ∙ a, e))
      (λ j q n a act. pending j q (sym (put-other i j _ s.objects n) ∙ a) act)
      (put-same i _ s.objects) (λ l h. let (q, a, e) = listed l i h in cc)

without_event : After → After
without_event o = record o { event = none }

without_event-IsSound :
    (s : Store) (i : ℕ) (o : After)
    → IsSound s
    → s.objects i ≡ some o
    → IsSound (put_in i (some (without_event o)) s)
unfolding put_in without_event
without_event-IsSound s i o (listed, pending) alive = (
  (λ l j h.
      let (q, a, e) = listed l j h in
      elim (same_or_not j i) [
        | inl x ↦
            let same = some-inj q o (sym a ∙ ap s.objects x ∙ alive) in
            (without_event o, rw x (put-same i _ s.objects), rw same at e)
        | inr n ↦ (q, put-other i j _ s.objects n ∙ a, e)
      ]),
  (λ j q a act. elim (same_or_not j i) [
    | inl x ↦
        let moved = without_event o in
        let same =
          some-inj q moved (sym a ∙ ap (put i (some moved) s.objects) x ∙ put-same i _ s.objects) in
        let lit : o.is_active ≡ true = rw same at act in rw (same, x) (pending i o alive lit)
    | inr n ↦ pending j q (sym (put-other i j _ s.objects n) ∙ a) act
  ]),
)

pub construct-IsSound :
    (s : Store) (i event : ℕ) (k : Key) (target value : ℕ)
    → IsSound s
    → s.objects i ≡ none
    → (t : Store) × (construct i event k target value s ≡ some t) × IsSound t
unfolding construct put_in
construct-IsSound s i event k target value sound free =
    register_new-IsSound s i
      (record { event = some event; key = k; is_active = true; target = target; value = value })
      sound free

pub copy-IsSound :
    (s : Store) (i other : ℕ) (o : After)
    → IsSound s
    → s.objects i ≡ none
    → s.objects other ≡ some o
    → (t : Store) × (copy i other s ≡ some t) × IsSound t
unfolding copy put_in without_event
copy-IsSound s i other o sound free alive =
    let apart : i ≢ other = λ (x : i ≡ other). let y = ap s.objects x in cc in
    let moved = put_in other (some (without_event o)) s in
    rw (copy, alive)
      (register_new-IsSound moved i o (without_event-IsSound s other o sound alive)
        (put-other other i _ s.objects apart ∙ free))

destroy_listed-IsSound :
    (s : Store) (i : ℕ) (o : After)
    → IsSound s
    → s.objects i ≡ some o
    → s.after_map o.key ≡ some i
    → IsSound (record (put_in i none s) { after_map = put_key o.key none s.after_map })
unfolding put_in
destroy_listed-IsSound s i o (listed, pending) alive h = (
  (λ l j x. elim (key_cases l o.key) [
    | inl p ↦ let nothing = sym (put_key-same o.key none s.after_map) ∙ rw p.0 at x in cc
    | inr p ↦
        let (q, a, e) = listed l j (sym (put_key-other o.key l none s.after_map p.0) ∙ x) in
        let other : j ≢ i = λ (y : j ≡ i).
          p.0 (sym e ∙ ap (λ (z : After). z.key) (some-inj q o (sym a ∙ ap s.objects y ∙ alive))) in
        (q, put-other i j _ s.objects other ∙ a, e)
  ]),
  (λ j q a act. elim (same_or_not j i) [
    | inl y ↦ let gone = sym a ∙ ap (put i none s.objects) y ∙ put-same i none s.objects in cc
    | inr n ↦
        let lit = pending j q (sym (put-other i j _ s.objects n) ∙ a) act in
        put_key-other o.key q.key none s.after_map
          (λ (y : q.key ≡ o.key). n (some-inj j i (sym lit ∙ ap s.after_map y ∙ h)))
        ∙ lit
  ]),
)

destroy_unlisted-IsSound :
    (s : Store) (i : ℕ) (o : After)
    → IsSound s
    → s.objects i ≡ some o
    → s.after_map o.key ≢ some i
    → IsSound (put_in i none s)
unfolding put_in
destroy_unlisted-IsSound s i o (listed, pending) alive h = (
  (λ l j x.
      let (q, a, e) = listed l j x in
      let other : j ≢ i = λ (y : j ≡ i).
        let key = ap (λ (z : After). z.key) (some-inj q o (sym a ∙ ap s.objects y ∙ alive)) in
        h (ap s.after_map (sym key ∙ e) ∙ x ∙ ap (λ k. some k) y) in
      (q, put-other i j _ s.objects other ∙ a, e)),
  (λ j q a act. elim (same_or_not j i) [
    | inl y ↦ let gone = sym a ∙ ap (put i none s.objects) y ∙ put-same i none s.objects in cc
    | inr n ↦ pending j q (sym (put-other i j _ s.objects n) ∙ a) act
  ]),
)

pub destroy-IsSound :
    (s : Store) (i : ℕ) (o : After)
    → IsSound s
    → s.objects i ≡ some o
    → (t : Store) × (destroy i s ≡ some t) × IsSound t
unfolding destroy unregister put_in
destroy-IsSound s i o sound alive = elim (Option-cases (s.after_map o.key)) [
  | inl e ↦ (
    put_in i none s,
    rw (destroy, alive, unregister, e) refl,
    destroy_unlisted-IsSound s i o sound alive (λ (x : s.after_map o.key ≡ some i). cc),
  )
  | inr (other, e) ↦ elim (Bool-cases (other == i)) [
    | inl t ↦
        let same : other ≡ i = ground arith in
        (
          record (put_in i none s) { after_map = put_key o.key none s.after_map },
          rw (destroy, alive, unregister, e, t) refl,
          destroy_listed-IsSound s i o sound alive (e ∙ ap (λ j. some j) same),
        )
    | inr f ↦
        let apart : other ≢ i = ground arith in
        (
          put_in i none s,
          rw (destroy, alive, unregister, e, f) refl,
          destroy_unlisted-IsSound s i o sound alive
              (λ (x : s.after_map o.key ≡ some i). apart (some-inj other i (sym e ∙ x))),
        )
  ]
]
