-- ===== src/Support/After/Assignment.antt =====
-- include/hif2scSupport/hif2scSupport/hif_after.i.hpp: `operator=` of a delayed assignment, which
-- exchanges the members of two objects and leaves the table as it is.
use hif_backend.Prelude.{
  some-inj, ℕ, ◌≡◌, ◌≢◌, refl, sym, ap, ◌∙◌, true, false, Option, none, some, Bool-cases,
  Option-cases, inl, inr, arith, ◌==◌,
}
use hif_backend.Support.After.{
  Key, After, Store, put, put_key, disable, register, unregister, construct, copy, destroy, swap,
  assign,
}
use hif_backend.Support.After.Lookup.{put-same, put-other, put_key-same, put_key-other, same_or_not}
use hif_backend.Support.After.Pending.{IsSound, IsListed}
use hif_backend.Support.After.Lifetimes.{Reachable, Reachable-IsSound}

-- What a registration does to the table and to an object that has another key or is not yet listed.
register_lem :
    (s : Store) (i : ℕ) (k : Key)
    → IsListed s
    → (t : Store) × (register i k s ≡ some t)
      × (t.after_map ≡ put_key k (some i) s.after_map)
      × ((j : ℕ) → s.after_map k ≢ some j → t.objects j ≡ s.objects j)
unfolding register disable
register_lem s i k listed = elim (Option-cases (s.after_map k)) [
  | inl e ↦ (
    record s { after_map = put_key k (some i) s.after_map },
    rw (register, e) refl,
    refl,
    λ j n. refl,
  )
  | inr (other, e) ↦
      let (q, alive, _) = listed k other e in
      (
        record s {
          objects = put other (some (record q { is_active = false })) s.objects;
          after_map = put_key k (some i) s.after_map;
        },
        rw (register, e, disable, alive) refl,
        refl,
        λ j n. put-other other j _ s.objects (λ (x : j ≡ other). n (e ∙ ap (λ y. some y) (sym x))),
      )
]

unregister-other : (s : Store) (i : ℕ) (k : Key) → s.after_map k ≢ some i → unregister i k s ≡ s
unfolding unregister
unregister-other s i k h = elim (Option-cases (s.after_map k)) [
  | inl e ↦ rw (unregister, e) refl
  | inr (other, e) ↦ elim (Bool-cases (other == i)) [
    | inl t ↦ let same : other ≡ i = ground arith in absurd (h (e ∙ ap (λ j. some j) same))
    | inr f ↦ rw (unregister, e, f) refl
  ]
]

destroy-unlisted :
    (s : Store) (i : ℕ) (o : After)
    → s.objects i ≡ some o
    → s.after_map o.key ≢ some i
    → destroy i s ≡ some (record s { objects = put i none s.objects })
unfolding destroy
destroy-unlisted s i o alive h =
    rw (destroy, alive)
      (ap (λ (t : Store). some (record t { objects = put i none t.objects }))
        (unregister-other s i o.key h))

construct-dangling :
    (s : Store) (tmp j event : ℕ) (k : Key) (target value : ℕ)
    → s.after_map k ≡ some tmp
    → s.objects tmp ≡ none
    → j ≢ tmp
    → construct j event k target value s ≡ none
unfolding construct register disable
construct-dangling s tmp j event k target value e gone apart =
    rw
      (
        construct,
        register,
        e,
        disable,
        put-other j tmp
            (some (record {
              event = some event;
              key = k;
              is_active = true;
              target = target;
              value = value;
            }))
            s.objects (λ (x : tmp ≡ j). apart (sym x)),
        gone,
      )
      refl

module _ (s : Store) (tmp i other : ℕ) (o q : After) (sound : IsSound s)
    (free : s.objects tmp ≡ none) (here : s.objects i ≡ some o) (there : s.objects other ≡ some q)
    (differ : o.key ≢ q.key) where
  copied : Store
  copied = record s {
    objects = put tmp (some q) (put other (some (record q { event = none })) s.objects);
  }

  alive_apart : (j : ℕ) (p : After) → s.objects j ≡ some p → j ≢ tmp
  alive_apart j p a x = let y = ap s.objects x in cc

  copied-IsListed : IsListed copied
  unfolding copied
  copied-IsListed l j h =
      let (p, a, e) = sound.0 l j h in
      let aside =
        put-other tmp j (some q) (put other (some (record q { event = none })) s.objects)
          (alive_apart j p a) in
      elim (same_or_not j other) [
        | inl x ↦
            let same = some-inj p q (sym a ∙ ap s.objects x ∙ there) in
            (
              record q { event = none },
              aside ∙ rw x (put-same other (some (record q { event = none })) s.objects),
              rw same at e,
            )
        | inr n ↦ (p, aside ∙ put-other other j _ s.objects n ∙ a, e)
      ]

  key_at : (k : Key) (j : ℕ) (p : After) → s.objects j ≡ some p → s.after_map k ≡ some j → p.key ≡ k
  key_at k j p a h =
      let (p', a', e) = sound.0 k j h in ap (λ (z : After). z.key) (some-inj p p' (sym a ∙ a')) ∙ e

  assign-dangling :
      (t : Store) × (assign tmp i other s ≡ some t)
      × (t.after_map q.key ≡ some tmp)
      × (t.objects tmp ≡ none)
  unfolding assign copy swap copied
  assign-dangling =
      let (t, r, table, keep) = register_lem copied tmp q.key copied-IsListed in
      let i_apart = alive_apart i o here in
      let i_other : i ≢ other = λ (x : i ≡ other).
        differ (ap (λ (z : After). z.key) (some-inj o q (sym here ∙ ap s.objects x ∙ there))) in
      let at_tmp : t.objects tmp ≡ some q =
        keep tmp (λ h. let (p, a, e) = sound.0 q.key tmp h in cc) ∙ put-same tmp _ _ in
      let at_i : t.objects i ≡ some o =
        keep i (λ h. differ (key_at q.key i o here h))
        ∙ put-other tmp i _ _ i_apart
        ∙ put-other other i _ s.objects i_other
        ∙ here in
      let u : Store = record t { objects = put i (some q) (put tmp (some o) t.objects) } in
      let tmp_left : u.objects tmp ≡ some o =
        put-other i tmp _ _ (λ (x : tmp ≡ i). i_apart (sym x)) ∙ put-same tmp _ t.objects in
      let unlisted : u.after_map o.key ≢ some tmp = λ h.
        let old =
          sym (
            ap (λ (f : Key → Option ℕ). f o.key) table
            ∙ put_key-other q.key o.key _ s.after_map differ)
          ∙ h in
        let (p, a, e) = sound.0 o.key tmp old in cc in
      (
        record u { objects = put tmp none u.objects },
        rw (assign, copy, there, r, swap, at_i, at_tmp)
            (destroy-unlisted u tmp o tmp_left unlisted),
        ap (λ (f : Key → Option ℕ). f q.key) table ∙ put_key-same q.key (some tmp) s.after_map,
        put-same tmp none u.objects,
      )

-- In a state of a run let two objects be alive whose line, file or time differ. The assignment of the
-- second to the first, with its local copy at a free address, succeeds; but the next object that is
-- made for the second one's line, file and time, at another address than that copy stood at,
-- follows a pointer to the copy, which is destroyed.
pub construct-assign :
    (s : Store) (tmp i other : ℕ) (o q : After) (j event target value : ℕ)
    → Reachable s
    → s.objects tmp ≡ none
    → s.objects i ≡ some o
    → s.objects other ≡ some q
    → o.key ≢ q.key
    → j ≢ tmp
    → (t : Store) × (assign tmp i other s ≡ some t)
      × (construct j event q.key target value t ≡ none)
construct-assign s tmp i other o q j event target value r free here there differ apart =
    let (t, e, h, gone) =
      assign-dangling s tmp i other o q (Reachable-IsSound s r) free here there differ in
    (t, e, construct-dangling t tmp j event q.key target value h gone apart)
