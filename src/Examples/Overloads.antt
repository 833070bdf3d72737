-- ===== src/Examples/Overloads.antt =====
-- Overloaded subprograms that SystemC cannot tell apart.
use hif_backend.Prelude.{
  ℕ, zero, suc, ◌+◌, ◌<◌, ◌≡◌, refl, Bool, true, false, ◌&&◌, List, [], ◌∷◌, Bytes, codes, bytes_eq,
  replicate, length, ◌==◌, arith, inl,
}
use hif_backend.Hif2sc.ConflictingSubPrograms.{
  Class, bit, bitvector, signed, unsigned, other, same_class, TypeInfo, are_sigs_conflict, State,
  member, fix_conflicting_subprograms, check_call, update_signatures, mark, mark_with,
  compare_parameters, are_conflicting_types, compare_classes, insert, rename_all, rename, set_calls,
}
use hif_backend.Hif2sc.ConflictingSubPrograms.Signatures.{
  all_confusable, are_sigs_conflict-confusable, kept-one_way,
}
use hif_backend.Hif2sc.ConflictingSubPrograms.Marking.{select}
use hif_backend.Hif2sc.ConflictingSubPrograms.Renaming.{has}
use hif_backend.Hif2sc.ConflictingSubPrograms.Settling.{
  Settled, Called, fix_conflicting_subprograms-Settled,
}

-- Types that are their classes.
abbrev classes : TypeInfo Class
classes = record {
  class_of = λ c. c;
  equals = same_class;
  is_signed = λ c. false;
  is_resolved = λ c. false;
}

abbrev pair : List Class
pair = bit ∷ signed ∷ []

abbrev other_pair : List Class
other_pair = bit ∷ unsigned ∷ []

are_sigs_conflict-confusable_example :
    are_sigs_conflict classes false pair other_pair ≡ all_confusable classes pair other_pair
are_sigs_conflict-confusable_example = are_sigs_conflict-confusable classes pair other_pair

kept-one_way_example :
    (are_sigs_conflict classes true (bit ∷ []) (bitvector ∷ []) ≡ true)
    × (are_sigs_conflict classes true (bitvector ∷ []) (bit ∷ []) ≡ false)
kept-one_way_example = kept-one_way classes bit bitvector refl (inl refl)

-- A name that is longer than all names together.
abbrev total : List Bytes → ℕ
total [] = 0
total (n ∷ ns) = length n + total ns

abbrev long_name : List Bytes → Bytes → Bytes
long_name used base = replicate (suc (total used)) 95

longer : (m n : Bytes) → length m < length n → bytes_eq m n ≡ false
longer [] [] h = let wrong : ⊥ = omega (arith, h) in absurd wrong
longer [] (d ∷ n) h = refl
longer (c ∷ m) [] h = refl
longer (c ∷ m) (d ∷ n) h = ground (arith, longer m n, h)

has-longer : (n : Bytes) (used : List Bytes) → total used < length n → has n used ≡ false
has-longer n [] h = refl
has-longer n (m ∷ ms) h =
    let shorter : length m < length n = omega (arith, h) in
    let others : total ms < length n = omega (arith, h) in
    rw (longer m n shorter, has-longer n ms others) refl

length-replicate : (n c : ℕ) → length (replicate n c) ≡ n
length-replicate zero c = refl
length-replicate (suc n) c = omega (arith, length-replicate n c)

long_name-new : (used : List Bytes) (base : Bytes) → has (long_name used base) used ≡ false
long_name-new used base =
    has-longer (long_name used base) used (omega (arith, length-replicate (suc (total used)) 95))

-- foo( signed ), foo( unsigned ) and foo( int ), each with one call.
abbrev parameters : ℕ → List Class
parameters d = elim (d == 0) [
  | true ↦ signed ∷ []
  | false ↦ elim (d == 1) [ true ↦ unsigned ∷ [] | false ↦ other 0 ∷ [] ]
]

abbrev conflict : ℕ → ℕ → Bool
conflict a b = are_sigs_conflict classes false (parameters a) (parameters b)

abbrev foos : List ℕ
foos = 0 ∷ 1 ∷ 2 ∷ []

abbrev all_foo : State
all_foo = record { name_of = λ d. codes "foo"; call_name = λ c. codes "foo"; found = false }

abbrev own_call : ℕ → List ℕ
own_call d = d ∷ []

own_call-of : (c d : ℕ) → member c (own_call d) ≡ (c == d)
own_call-of c d = ground arith

abbrev foos_named : (ℕ → Bytes) → ℕ → List ℕ
foos_named name o = select (λ d. bytes_eq (name d) (name o) && true) foos

fix_conflicting_subprograms-Settled_example :
    let t = fix_conflicting_subprograms conflict own_call foos_named foos long_name foos all_foo in
    Settled conflict own_call foos_named foos long_name long_name-new
      (λ c. c)
      own_call-of
      (λ o d. true)
      (λ name o. refl)
      (refl, (refl, (refl, tt)))
      t
      0
    × (Called conflict own_call foos_named foos long_name long_name-new
          (λ c. c)
          own_call-of
          (λ o d. true)
          (λ name o. refl)
          (refl, (refl, (refl, tt)))
          all_foo
        → Called conflict own_call foos_named foos long_name long_name-new
            (λ c. c)
            own_call-of
            (λ o d. true)
            (λ name o. refl)
            (refl, (refl, (refl, tt)))
            t)
fix_conflicting_subprograms-Settled_example =
    fix_conflicting_subprograms-Settled conflict own_call foos_named foos long_name long_name-new
      (λ c. c) own_call-of (λ o d. true) (λ name o. refl) (refl, (refl, (refl, tt))) foos all_foo 0
      refl refl

second_renamed :
    (fix_conflicting_subprograms conflict own_call foos_named foos long_name foos all_foo).call_name
      1
    ≡ replicate 10 95
unfolding fix_conflicting_subprograms check_call update_signatures mark mark_with are_sigs_conflict
    compare_parameters are_conflicting_types same_class compare_classes insert rename_all rename
    set_calls
second_renamed = refl
