-- ===== src/Hif2sc/ConflictingSubPrograms.antt =====
-- src/hif2sc/PreRefine_conflictingSubPrograms.cpp: subprograms of one name whose parameters SystemC
-- cannot tell apart, which are renamed with the calls of them. Subprograms and calls are numbers,
-- those of subprograms in the order of their addresses, by which std::set keeps them.
pub mod Signatures
pub mod Marking
pub mod Renaming
pub mod Checking
pub mod Settling
use hif_backend.Prelude.{
  ℕ, Bool, true, false, ◌&&◌, ◌||◌, not, List, [], ◌∷◌, ◌++◌, map, Option, none, some, Bytes, codes,
  bytes_eq, length, ltb, ◌==◌, if◌then◌else◌,
}

pub data CompareType : Type 0 where
  compatible conflicting uncompatible : CompareType

-- The classes of types that matter; the others have a number each.
pub data Class : Type 0 where
  bit bool bitvector signed unsigned : Class
  other : ℕ → Class

unfoldable pub same_class : Class → Class → Bool
same_class bit d = elim d [ bit ↦ true | _ ↦ false ]
same_class bool d = elim d [ bool ↦ true | _ ↦ false ]
same_class bitvector d = elim d [ bitvector ↦ true | _ ↦ false ]
same_class signed d = elim d [ signed ↦ true | _ ↦ false ]
same_class unsigned d = elim d [ unsigned ↦ true | _ ↦ false ]
same_class (other n) d = elim d [ other m ↦ n == m | _ ↦ false ]

abbrev pub is_vector : Class → Bool
is_vector c = elim c [ bitvector ↦ true | _ ↦ false ]

-- What hif-core says of types: their class, whether they are equal up to their spans, and the flags
-- of bit vectors.
pub record TypeInfo (T : Type 0) : Type 0 where
  pub class_of : T → Class
  pub equals : T → T → Bool
  pub is_signed : T → Bool
  pub is_resolved : T → Bool

abbrev pub not_same : Bool → Bool → Bool
not_same true b = not b
not_same false b = b

abbrev conflicting_if : Bool → CompareType
conflicting_if b = if b then conflicting else uncompatible

abbrev pub is_bit : Class → Bool
is_bit c = elim c [ bit ↦ true | _ ↦ false ]

abbrev pub is_bool : Class → Bool
is_bool c = elim c [ bool ↦ true | _ ↦ false ]

abbrev pub is_signed_class : Class → Bool
is_signed_class c = elim c [ signed ↦ true | _ ↦ false ]

abbrev pub is_unsigned_class : Class → Bool
is_unsigned_class c = elim c [ unsigned ↦ true | _ ↦ false ]

-- A class that the tests for conflicts know.
abbrev pub is_listed : Class → Bool
is_listed c = elim c [ other n ↦ false | _ ↦ true ]

-- Two types of different classes. The last branch is of an unsigned type, and of the types of one
-- bit where these are kept.
unfoldable pub compare_classes : Bool → Class → Class → CompareType
compare_classes keep_bit c1 c2 =
    if not (is_listed c1)
    then uncompatible
    else if not (is_listed c2)
    then uncompatible
    else if is_bit c1 && not keep_bit
    then conflicting_if (is_bool c2)
    else if is_bool c1 && not keep_bit
    then conflicting_if (is_bit c2)
    else if is_vector c1
    then conflicting_if (is_signed_class c2 || is_unsigned_class c2)
    else if is_signed_class c1
    then conflicting_if (is_vector c2 || is_unsigned_class c2)
    else conflicting_if (is_vector c2 || is_signed_class c2)

module _ {T : Type 0} (info : TypeInfo T) where
  -- Two types of one class.
  unfoldable pub compare_alike : T → T → CompareType
  compare_alike t1 t2 =
      if info.equals t1 t2
      then compatible
      else if is_vector (info.class_of t1) && is_vector (info.class_of t2)
      then if not_same (info.is_signed t1) (info.is_signed t2)
        then conflicting
        else if not_same (info.is_resolved t1) (info.is_resolved t2)
        then conflicting
        else uncompatible
      else uncompatible

module _ {T : Type 0} (info : TypeInfo T) (keep_bit : Bool) where
  unfoldable pub are_conflicting_types : T → T → CompareType
  are_conflicting_types t1 t2 =
      if same_class (info.class_of t1) (info.class_of t2)
      then compare_alike info t1 t2
      else compare_classes keep_bit (info.class_of t1) (info.class_of t2)

  -- The rounds over the parameters, with the two flags.
  unfoldable pub compare_parameters : List T → List T → Bool → Bool → Bool
  compare_parameters (t1 ∷ ts1) (t2 ∷ ts2) conflicts all_compatible =
      let same = compare_parameters ts1 ts2 conflicts all_compatible in
      let differ = compare_parameters ts1 ts2 true false in
      elim (are_conflicting_types t1 t2) [
        | compatible ↦ same
        | uncompatible ↦ false
        | conflicting ↦ differ
      ]
  compare_parameters ts1 ts2 conflicts all_compatible = conflicts || all_compatible

  unfoldable pub are_sigs_conflict : List T → List T → Bool
  are_sigs_conflict s1 s2 =
      if not (length s1 == length s2) then false else compare_parameters s1 s2 false true

-- The names of the subprograms and those that the calls have, and whether a conflict was found.
pub record State : Type 0 where
  pub name_of : ℕ → Bytes
  pub call_name : ℕ → Bytes
  pub found : Bool

abbrev pub member : ℕ → List ℕ → Bool
member x [] = false
member x (y ∷ ys) = x == y || member x ys

-- Into a std::set.
unfoldable pub insert : ℕ → List ℕ → List ℕ
insert x [] = x ∷ []
insert x (y ∷ ys) =
    let rest = insert x ys in if ltb x y then x ∷ y ∷ ys else if x == y then y ∷ ys else y ∷ rest

unfoldable pub set_calls : List ℕ → Bytes → (ℕ → Bytes) → ℕ → Bytes
set_calls [] n call = call
set_calls (c ∷ cs) n call = set_calls cs n (λ x. if x == c then n else call x)

-- `conflict` compares the parameters of two subprograms.
module _ (conflict : ℕ → ℕ → Bool) where
  -- The inner and the outer loop over pairs of candidates.
  unfoldable pub mark_with : ℕ → List ℕ → List ℕ → List ℕ
  mark_with i [] marked = marked
  mark_with i (j ∷ rest) marked =
      mark_with i rest (if conflict i j then insert j (insert i marked) else marked)

  unfoldable pub mark : List ℕ → List ℕ → List ℕ
  mark [] marked = marked
  mark (i ∷ rest) marked = mark rest (mark_with i rest marked)

-- `references` are the calls of a subprogram, `subprograms` all of them, and `fresh` is a name that
-- is not in a list.
module _ (references : ℕ → List ℕ) (subprograms : List ℕ) (fresh : List Bytes → Bytes → Bytes) where
  unfoldable pub rename : ℕ → State → State
  rename d s =
      let n = fresh (map s.name_of subprograms) (s.name_of d ++ codes "_renamed") in
      record s {
        name_of = λ x. if x == d then n else s.name_of x;
        call_name = set_calls (references d) n s.call_name;
      }

  unfoldable pub rename_all : List ℕ → State → State
  rename_all [] s = s
  rename_all (d ∷ ds) s = rename_all ds (rename d s)

  -- The first of the set keeps its name.
  unfoldable pub update_signatures : List ℕ → State → State
  update_signatures [] s = s
  update_signatures (d ∷ ds) s = rename_all ds (record s { found = true })

-- `candidates` are the subprograms that hif-core finds for a call of the name of one from where that
-- stands.
module _ (conflict : ℕ → ℕ → Bool) (references : ℕ → List ℕ) (candidates : (ℕ → Bytes) → ℕ → List ℕ)
    (subprograms : List ℕ) (fresh : List Bytes → Bytes → Bytes) where
  unfoldable pub check_call : ℕ → State → State
  check_call o s =
      let found_candidates = candidates s.name_of o in
      if ltb (length found_candidates) 2
      then s
      else update_signatures references subprograms fresh (mark conflict found_candidates []) s

  -- Over the subprograms that are visited, in order.
  unfoldable pub fix_conflicting_subprograms : List ℕ → State → State
  fix_conflicting_subprograms [] s = s
  fix_conflicting_subprograms (o ∷ os) s = fix_conflicting_subprograms os (check_call o s)
