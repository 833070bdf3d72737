-- ===== src/Support/Vectors/Equality.antt =====
-- include/hif2scSupport/hif2scSupport/hif_systemc_extensions.i.hpp: the match of two
-- vectors in a case statement with don't-cares, for operands of any two lengths.
use hif_backend.Prelude.{
  ℕ, ◌-◌, ◌≤◌, ◌≡◌, refl, sym, ap, ◌∙◌, Bool, true, false, ◌&&◌, ◌||◌, List, [], ◌∷◌, ◌++◌, some,
  length, length-append, replicate, append-nil, Bytes, ◌==◌, ◌>>=◌, if◌then◌else◌, arith,
  zero-ne-suc, Bool-cases, inl, inr,
}
use hif_backend.Support.FourState.{logic_0, FourState}
use hif_backend.Support.VectorOps.{logic, text_of, VectorOps, IsVectorOps}
use hif_backend.Support.Vectors.{last, chars_match, texts_match, max, extend, hif_case_xz}
use hif_backend.Support.Vectors.Extension.{length-replicate, hif_sxt_lem}

-- A character that matches every other one, X only if it is to.
abbrev pub is_wild : Bool → ℕ → Bool
is_wild x_matches c = c == b'Z' || (x_matches && c == b'X')

texts_match-append :
    (x_matches : Bool) (s t a b : Bytes)
    → length s ≡ length t
    → texts_match x_matches (s ++ a) (t ++ b)
      ≡ (texts_match x_matches s t >>= λ r. if r then texts_match x_matches a b else some false)
unfolding texts_match
texts_match-append x_matches [] [] a b e = refl
texts_match-append x_matches [] (d ∷ t) a b e = zero-ne-suc (length t) e
texts_match-append x_matches (c ∷ s) [] a b e = zero-ne-suc (length s) (sym e)
texts_match-append x_matches (c ∷ s) (d ∷ t) a b e = elim (Bool-cases (chars_match x_matches c d)) [
  | inl matches ↦ rw (matches) (texts_match-append x_matches s t a b (omega (arith, e)))
  | inr other ↦ rw other refl
]

module _ {A : Type 0} where
  pub le-max_left : (v w : List A) → length v ≤ max (length v) (length w)
  unfolding max
  le-max_left v w = ground arith

  pub le-max_right : (v w : List A) → length w ≤ max (length v) (length w)
  unfolding max
  le-max_right v w = ground arith

module _ (F : FourState) where
  -- The values at each index match.
  abbrev pub all_match : Bool → List F.Logic → List F.Logic → Bool
  all_match x_matches [] w = true
  all_match x_matches (a ∷ v) [] = true
  all_match x_matches (a ∷ v) (b ∷ w) =
      (F.to_char a == F.to_char b
        || is_wild x_matches (F.to_char a)
        || is_wild x_matches (F.to_char b))
      && all_match x_matches v w

  length-text_of : (v : List F.Logic) → length (text_of F v) ≡ length v
  length-text_of [] = refl
  length-text_of (x ∷ v) =
      omega (arith, length-append (text_of F v) (F.to_char x ∷ []), length-text_of v)

  texts_match-text_of :
      (x_matches : Bool) (v w : List F.Logic)
      → length v ≡ length w
      → texts_match x_matches (text_of F v) (text_of F w) ≡ some (all_match x_matches v w)
  unfolding texts_match chars_match
  texts_match-text_of x_matches [] [] e = refl
  texts_match-text_of x_matches [] (b ∷ w) e = zero-ne-suc (length w) e
  texts_match-text_of x_matches (a ∷ v) [] e = zero-ne-suc (length v) (sym e)
  texts_match-text_of x_matches (a ∷ v) (b ∷ w) e =
      let shorter : length v ≡ length w = omega (arith, e) in
      texts_match-append x_matches (text_of F v) (text_of F w) (F.to_char a ∷ []) (F.to_char b ∷ [])
        (length-text_of v ∙ shorter ∙ sym (length-text_of w))
      ∙ rw (texts_match-text_of x_matches v w shorter) (ground arith)

  -- A vector at a length that is not below its own: with its last value repeated, or with zeros.
  abbrev pub padded : ℕ → Bool → List F.Logic → F.Logic → List F.Logic
  padded n sign v top = v ++ replicate (n - length v) (if sign then top else logic F logic_0)

  pub length-padded :
      (n : ℕ) (sign : Bool) (v : List F.Logic) (top : F.Logic)
      → length v ≤ n
      → length (padded n sign v top) ≡ n
  length-padded n sign v top le = omega (
    arith,
    length-append v (replicate (n - length v) (if sign then top else logic F logic_0)),
    length-replicate (n - length v) (if sign then top else logic F logic_0),
  )

  module _ (O : VectorOps F) (good : IsVectorOps F O) where
    pub extend_lem :
        (n : ℕ) (sign : Bool) (v : List F.Logic) (top : F.Logic)
        → last v ≡ some top
        → length v ≤ n
        → extend F O n sign v ≡ some (padded n sign v top)
    unfolding extend
    extend_lem n false v top h le = ap some (good.widen_lem n v le)
    extend_lem n true v top h le = elim (Bool-cases (length v == n)) [
      | inl same ↦
          let none_added : n - length v ≡ 0 = ground (arith, same) in
          let kept : padded n true v top ≡ v =
            ap (λ k. v ++ replicate k top) none_added ∙ append-nil v in
          ground (arith, kept)
      | inr longer ↦
          ground (arith, hif_sxt_lem F O good v top n h le (length-padded n true v top le))
    ]

    -- The match of a case statement on two vectors that are not empty, of any two lengths, always
    -- has an answer: the shorter one is extended, with its last value if the operands are signed
    -- and with zeros if not, and they match if at each index the values are equal or one of them
    -- is Z or, in a casex, X.
    pub hif_case_xz-all_match :
        (v w : List F.Logic) (top_v top_w : F.Logic) (x_matches sign : Bool)
        → last v ≡ some top_v
        → last w ≡ some top_w
        → let n = max (length v) (length w) in
          hif_case_xz F O v w x_matches sign
          ≡ some (all_match x_matches (padded n sign v top_v) (padded n sign w top_w))
    unfolding hif_case_xz max
    hif_case_xz-all_match v w top_v top_w x_matches sign hv hw =
        let n = max (length v) (length w) in
        let pv = padded n sign v top_v in
        let pw = padded n sign w top_w in
        rw
          (
            extend_lem n sign v top_v hv (le-max_left v w),
            extend_lem n sign w top_w hw (le-max_right v w),
            good.to_string_lem pv,
            good.to_string_lem pw,
          )
          (texts_match-text_of x_matches pv pw (
            length-padded n sign v top_v (le-max_left v w)
            ∙ sym (length-padded n sign w top_w (le-max_right v w))))
