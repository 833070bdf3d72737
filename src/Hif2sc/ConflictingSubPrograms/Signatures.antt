-- ===== src/Hif2sc/ConflictingSubPrograms/Signatures.antt =====
-- src/hif2sc/PreRefine_conflictingSubPrograms.cpp: which parameters SystemC cannot tell apart.
use hif_backend.Prelude.{
  ℕ, ◌+◌, ◌≡◌, ◌⊎◌, refl, sym, ap, ◌∙◌, Bool, true, false, ◌&&◌, ◌||◌, List, [], ◌∷◌, length, ◌==◌,
  if◌then◌else◌, arith, Bool-cases, inl, inr,
}
use hif_backend.Hif2sc.ConflictingSubPrograms.{
  CompareType, compatible, conflicting, uncompatible, Class, bit, bool, bitvector, signed, unsigned,
  other, same_class, is_vector, not_same, TypeInfo, compare_alike, compare_classes,
  are_conflicting_types, compare_parameters, are_sigs_conflict,
}

-- The classes whose types SystemC converts into each other: the types of one bit, those of vectors
-- of bits and numbers of any length, and each other class by itself.
abbrev pub family : Class → ℕ
family bit = 0
family bool = 0
family bitvector = 1
family signed = 1
family unsigned = 1
family (other n) = n + 2

abbrev clashes : CompareType → Bool
clashes c = elim c [ uncompatible ↦ false | _ ↦ true ]

same_class-family :
    (c d : Class)
    → same_class c d ≡ false
    → clashes (compare_classes false c d) ≡ (family c == family d)
unfolding same_class compare_classes
same_class-family c d h = ground arith

kept-classes :
    (c d : Class)
    → family c ≡ 0
    → (d ≡ bitvector) ⊎ (d ≡ signed)
    → (same_class c d ≡ false)
      × (compare_classes true c d ≡ conflicting)
      × (same_class d c ≡ false)
      × (compare_classes true d c ≡ uncompatible)
unfolding same_class compare_classes
kept-classes bit d h (inl e) = rw e (refl, refl, refl, refl)
kept-classes bit d h (inr e) = rw e (refl, refl, refl, refl)
kept-classes bool d h (inl e) = rw e (refl, refl, refl, refl)
kept-classes bool d h (inr e) = rw e (refl, refl, refl, refl)
kept-classes bitvector d h e = let wrong : ⊥ = omega (arith, h) in absurd wrong
kept-classes signed d h e = let wrong : ⊥ = omega (arith, h) in absurd wrong
kept-classes unsigned d h e = let wrong : ⊥ = omega (arith, h) in absurd wrong
kept-classes (other n) d h e = let wrong : ⊥ = omega (arith, h) in absurd wrong

and-no : (b : Bool) → (b && false) ≡ false
and-no b = ground arith

module _ {T : Type 0} (info : TypeInfo T) where
  -- Two types that are equal, of different classes of one family, or bit vectors that differ in
  -- their flags.
  abbrev pub confusable : T → T → Bool
  confusable t1 t2 =
      let c1 = info.class_of t1 in
      let c2 = info.class_of t2 in
      if same_class c1 c2
      then info.equals t1 t2
        || is_vector c1
          && is_vector c2
          && (not_same (info.is_signed t1) (info.is_signed t2)
              || not_same (info.is_resolved t1) (info.is_resolved t2))
      else family c1 == family c2

  abbrev pub all_confusable : List T → List T → Bool
  all_confusable [] [] = true
  all_confusable [] (t2 ∷ ts2) = false
  all_confusable (t1 ∷ ts1) [] = false
  all_confusable (t1 ∷ ts1) (t2 ∷ ts2) = confusable t1 t2 && all_confusable ts1 ts2

  clashes-confusable :
      (t1 t2 : T) → clashes (are_conflicting_types info false t1 t2) ≡ confusable t1 t2
  unfolding are_conflicting_types compare_alike
  clashes-confusable t1 t2 = elim (Bool-cases (same_class (info.class_of t1) (info.class_of t2))) [
    | inl e ↦ rw e (ground arith)
    | inr n ↦ rw n (same_class-family (info.class_of t1) (info.class_of t2) n)
  ]

  compare_parameters_lem :
      (ts1 ts2 : List T) (c a : Bool)
      → (length ts1 == length ts2) ≡ true
      → (c || a) ≡ true
      → compare_parameters info false ts1 ts2 c a ≡ all_confusable ts1 ts2
  unfolding compare_parameters
  compare_parameters_lem [] [] c a h e = e
  compare_parameters_lem [] (t2 ∷ ts2) c a h e = ground (arith, h)
  compare_parameters_lem (t1 ∷ ts1) [] c a h e = ground (arith, h)
  compare_parameters_lem (t1 ∷ ts1) (t2 ∷ ts2) c a h e =
      let fact = clashes-confusable t1 t2 in
      let tails : (length ts1 == length ts2) ≡ true = ground (arith, h) in
      elim (are_conflicting_types info false t1 t2)
          as (λ r.
            clashes r ≡ confusable t1 t2
            → (elim r [
              | compatible ↦ compare_parameters info false ts1 ts2 c a
              | uncompatible ↦ false
              | conflicting ↦ compare_parameters info false ts1 ts2 true false
            ])
              ≡ (confusable t1 t2 && all_confusable ts1 ts2)) [
                | compatible ↦ λ q. rw (← q) (compare_parameters_lem ts1 ts2 c a tails e)
                | uncompatible ↦ λ q. rw (← q) refl
                | conflicting ↦ λ q. rw (← q) (compare_parameters_lem ts1 ts2 true false tails refl)
              ]
        fact

  lengths : (ts1 ts2 : List T) → (length ts1 == length ts2) ≡ false → all_confusable ts1 ts2 ≡ false
  lengths [] [] h = ground (arith, h)
  lengths [] (t2 ∷ ts2) h = refl
  lengths (t1 ∷ ts1) [] h = refl
  lengths (t1 ∷ ts1) (t2 ∷ ts2) h =
      let tails : (length ts1 == length ts2) ≡ false = ground (arith, h) in
      rw (lengths ts1 ts2 tails) (and-no (confusable t1 t2))

  -- Where the types of one bit are not kept, two subprograms conflict exactly if they have one
  -- number of parameters and each parameter of the first is confusable with that of the second: their
  -- types are equal, of different classes of one family, or bit vectors that differ in their flags.
  pub are_sigs_conflict-confusable :
      (s1 s2 : List T) → are_sigs_conflict info false s1 s2 ≡ all_confusable s1 s2
  unfolding are_sigs_conflict
  are_sigs_conflict-confusable s1 s2 = elim (Bool-cases (length s1 == length s2)) [
    | inl e ↦ rw e (compare_parameters_lem s1 s2 false true e refl)
    | inr n ↦ rw n (sym (lengths s1 s2 n))
  ]

  single :
      (keep_bit : Bool) (t1 t2 : T)
      → are_sigs_conflict info keep_bit (t1 ∷ []) (t2 ∷ [])
        ≡ clashes (are_conflicting_types info keep_bit t1 t2)
  unfolding are_sigs_conflict compare_parameters
  single keep_bit t1 t2 =
      elim (are_conflicting_types info keep_bit t1 t2)
        as (λ r.
          (elim r [ compatible ↦ true | uncompatible ↦ false | conflicting ↦ true ]) ≡ clashes r) [
            | compatible ↦ refl
            | uncompatible ↦ refl
            | conflicting ↦ refl
          ]

  kept-types :
      (t1 t2 : T)
      → family (info.class_of t1) ≡ 0
      → (info.class_of t2 ≡ bitvector) ⊎ (info.class_of t2 ≡ signed)
      → (are_conflicting_types info true t1 t2 ≡ conflicting)
        × (are_conflicting_types info true t2 t1 ≡ uncompatible)
  unfolding are_conflicting_types
  kept-types t1 t2 h e =
      let (differ, there, differ', back) = kept-classes (info.class_of t1) (info.class_of t2) h e in
      (rw (differ, there) refl, rw (differ', back) refl)

  -- Where the types of one bit are kept, a parameter of one bit conflicts with a bit vector or a
  -- signed number, and neither of these conflicts with it.
  pub kept-one_way :
      (t1 t2 : T)
      → family (info.class_of t1) ≡ 0
      → (info.class_of t2 ≡ bitvector) ⊎ (info.class_of t2 ≡ signed)
      → (are_sigs_conflict info true (t1 ∷ []) (t2 ∷ []) ≡ true)
        × (are_sigs_conflict info true (t2 ∷ []) (t1 ∷ []) ≡ false)
  kept-one_way t1 t2 h e =
      let (there, back) = kept-types t1 t2 h e in
      (single true t1 t2 ∙ ap clashes there, single true t2 t1 ∙ ap clashes back)
