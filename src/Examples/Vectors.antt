-- ===== src/Examples/Vectors.antt =====
-- Vectors of the four values, and the values that a signal keeps.
use hif_backend.Prelude.{
  ℕ, ◌+◌, ◌-◌, ◌*◌, ◌≡◌, refl, sym, ap, ◌∙◌, ◌↔◌, Bool, true, false, ◌&&◌, not, List, [], ◌∷◌, ◌++◌,
  some, Bytes, length, replicate, ◌==◌, arith, if◌then◌else◌,
}
use hif_backend.Prelude.Int.{pos}
use hif_backend.Support.FourState.{Level, logic_0, logic_1, logic_z, logic_x, level_char, is_binary}
use hif_backend.Support.VectorOps.{
  take, drop, all, level_xor, level_not, level_or, logic, text_of, VectorOps, IsVectorOps,
}
use hif_backend.Support.Vectors.{
  last, max, hif_sxt, hif_case_xz, hif_logic_equals, hif_op_shift_right_arith,
}
use hif_backend.Support.Vectors.Extension.{signed, hif_sxt-signed}
use hif_backend.Support.Vectors.Equality.{all_match, padded, hif_case_xz-all_match}
use hif_backend.Support.Vectors.LogicEquals.{answer, differ, agree, hif_logic_equals-answer}
use hif_backend.Support.Vectors.Shifts.{hif_op_shift_right_arith-fill}
use hif_backend.Support.LastValue.{Held, Word, reads, bit_at, changes, final_bit, reads-kept}
use hif_backend.Examples.Logic.{level_of, level_of-level_char, four_state, four_state-IsFourState}

abbrev Vector : Type 0
Vector = List Level

abbrev vector_eq : Vector → Vector → Bool
vector_eq [] [] = true
vector_eq [] (b ∷ w) = false
vector_eq (a ∷ v) [] = false
vector_eq (a ∷ v) (b ∷ w) = (level_char a == level_char b) && vector_eq v w

abbrev vector_xor : Vector → Vector → Vector
vector_xor [] w = []
vector_xor (a ∷ v) [] = []
vector_xor (a ∷ v) (b ∷ w) = level_xor a b ∷ vector_xor v w

abbrev or_reduce : Vector → Level
or_reduce [] = logic_0
or_reduce (a ∷ v) = level_or a (or_reduce v)

abbrev of_text : Bytes → Vector
of_text [] = []
of_text (c ∷ s) = of_text s ++ level_of c ∷ []

abbrev to_number : Vector → ℕ
to_number [] = 0
to_number (a ∷ v) = (if level_char a == b'1' then 1 else 0) + 2 * to_number v

abbrev vector_ops : VectorOps four_state
vector_ops = record {
  of_bool = λ b. if b then logic_1 else logic_0;
  not_logic = level_not;
  vector_is_01 = all is_binary;
  vector_eq = vector_eq;
  vector_xor = vector_xor;
  or_reduce = or_reduce;
  widen = λ n v. v ++ replicate (n - length v) logic_0;
  range = λ v n. take n v;
  to_string = text_of four_state;
  of_string = λ n s. of_text s;
  fresh = λ n. replicate n logic_x;
  shift_left = λ v n. take (length v) (replicate n logic_0 ++ v);
  shift_right = λ v n. drop n v ++ replicate n logic_0;
  to_uint64 = to_number;
  bigint = λ v. pos (to_number v);
  biguint = λ v. pos (to_number v);
}

vector_eq→eq : (v w : Vector) → vector_eq v w ≡ true → v ≡ w
unfolding level_char
vector_eq→eq [] [] h = refl
vector_eq→eq [] (b ∷ w) h = cc
vector_eq→eq (a ∷ v) [] h = cc
vector_eq→eq (a ∷ v) (b ∷ w) h = ground (arith, vector_eq→eq v w)

vector_eq_refl : (v : Vector) → vector_eq v v ≡ true
vector_eq_refl [] = refl
vector_eq_refl (a ∷ v) = ground (arith, vector_eq_refl v)

vector_eq_iff : (v w : Vector) → (vector_eq v w ≡ true) ↔ (v ≡ w)
vector_eq_iff v w = (vector_eq→eq v w, λ e. rw (sym e) (vector_eq_refl v))

of_text-append : (s : Bytes) (c : ℕ) → of_text (s ++ c ∷ []) ≡ level_of c ∷ of_text s
of_text-append [] c = refl
of_text-append (d ∷ s) c = rw (of_text-append s c) refl

of_text-text_of : (v : Vector) → of_text (text_of four_state v) ≡ v
of_text-text_of [] = refl
of_text-text_of (a ∷ v) =
    rw
      (
        of_text-append (text_of four_state v) (level_char a),
        of_text-text_of v,
        level_of-level_char a,
      )
      refl

vector_ops-IsVectorOps : IsVectorOps four_state vector_ops
unfolding level_char
vector_ops-IsVectorOps = record {
  of_bool-true = refl;
  of_bool-false = refl;
  not_logic-logic = λ l. rw (level_of-level_char l, level_of-level_char (level_not l)) refl;
  vector_is_01_lem = λ v. refl;
  vector_eq_iff = vector_eq_iff;
  vector_xor-nil = refl;
  vector_xor-cons = λ l m v w.
      rw (level_of-level_char l, level_of-level_char m, level_of-level_char (level_xor l m)) refl;
  or_reduce-nil = refl;
  or_reduce-cons = λ l m v e.
      rw (level_of-level_char l, level_of-level_char (level_or l m))
        (ap (level_or l) (e ∙ level_of-level_char m));
  widen_lem = λ n v le. refl;
  range_lem = λ v n le. refl;
  to_string_lem = λ v. refl;
  of_string-text_of = λ v x. of_text-text_of ((v ++ x ∷ []) ++ x ∷ []);
  shift_right_lem = λ v n le. refl;
}

-- -2 in three bits, from index 0 on.
abbrev minus_two : Vector
minus_two = logic_0 ∷ logic_1 ∷ logic_1 ∷ []

hif_sxt-signed_example :
    let w = minus_two ++ replicate (5 - length minus_two) logic_1 in
    (hif_sxt four_state vector_ops 5 minus_two ≡ some w)
    × (length w ≡ 5)
    × (last w ≡ some logic_1)
    × (signed four_state w logic_1 ≡ signed four_state minus_two logic_1)
hif_sxt-signed_example =
    hif_sxt-signed four_state vector_ops vector_ops-IsVectorOps minus_two logic_1 5 refl
      (omega arith)

abbrev with_z : Vector
with_z = logic_0 ∷ logic_z ∷ []

hif_case_xz-all_match_example :
    hif_case_xz four_state vector_ops minus_two with_z false false
    ≡ some (
        all_match four_state false
          (padded four_state (max (length minus_two) (length with_z)) false minus_two logic_1)
          (padded four_state (max (length minus_two) (length with_z)) false with_z logic_z))
hif_case_xz-all_match_example =
    hif_case_xz-all_match four_state vector_ops vector_ops-IsVectorOps minus_two with_z logic_1
      logic_z false false refl refl

hif_logic_equals-answer_example :
    let pv = padded four_state (max (length minus_two) (length with_z)) true minus_two logic_1 in
    let pw = padded four_state (max (length minus_two) (length with_z)) true with_z logic_z in
    hif_logic_equals four_state vector_ops minus_two with_z true
    ≡ some (logic four_state (answer (differ four_state pv pw) (agree four_state pv pw)))
hif_logic_equals-answer_example =
    hif_logic_equals-answer four_state four_state-IsFourState vector_ops vector_ops-IsVectorOps
      minus_two with_z logic_1 logic_z true refl refl

-- -2 shifted by one place: the sign comes in at index 0.
hif_op_shift_right_arith-fill_example :
    hif_op_shift_right_arith four_state vector_ops minus_two (logic_1 ∷ logic_0 ∷ [])
    ≡ some (
        if level_char logic_1 == b'0'
        then drop 1 minus_two ++ replicate 1 logic_0
        else replicate 1 logic_1 ++ drop 1 (drop 1 minus_two ++ replicate 1 logic_0))
unfolding level_char is_binary
hif_op_shift_right_arith-fill_example =
    hif_op_shift_right_arith-fill four_state vector_ops four_state-IsFourState
      vector_ops-IsVectorOps minus_two (logic_1 ∷ logic_0 ∷ []) logic_1 refl refl (omega arith)

abbrev held : Held
held = record { last = false ∷ false ∷ []; prev = true ∷ false ∷ [] }

abbrev samples : List Word
samples = (true ∷ true ∷ []) ∷ (true ∷ false ∷ []) ∷ []

reads-kept_example :
    (bit_at (reads samples held).last 1
      ≡ (if changes 1 false samples then not (final_bit 1 false samples) else false))
    × (bit_at (reads samples held).prev 1 ≡ final_bit 1 false samples)
reads-kept_example = reads-kept 2 samples held 1 (refl, (refl, tt)) refl refl
