-- ===== src/Support/LogicTextio/Tables.antt =====
-- src/hif2scSupport/hif_vhdl_ieee_std_logic_textio.cpp: the tables of digits, row by row.
use hif_backend.Prelude.{
  some-inj, ℕ, suc, ◌+◌, ◌-◌, ◌*◌, ◌≡◌, ◌≢◌, refl, sym, ap, true, false, List, [], ◌∷◌, ◌++◌,
  Option, none, some, Bytes, ltb, leb, ◌==◌, ◌&&◌, if◌then◌else◌, arith, All, Bool-cases, inl, inr,
  length,
}
use native.Mathlib.Nat.{mul-suc}
use hif_backend.Support.LogicTextio.{lookup, quad_table, tri_table}

-- The value of a digit in a base up to 16.
abbrev pub digit : ℕ → Option ℕ
digit c =
    if leb b'0' c && leb c b'9'
    then some (c - b'0')
    else if leb b'A' c && leb c b'F'
    then some (c - b'A' + 10)
    else if leb b'a' c && leb c b'f'
    then some (c - b'a' + 10)
    else none

-- The number that a text stands for in base 2 ^ w, where all its characters are digits of that base.
abbrev pub number_from : ℕ → ℕ → Bytes → Option ℕ
number_from base n [] = some n
number_from base n (c ∷ s) = elim (digit c) [
  | none ↦ none
  | some d ↦ if ltb d base then number_from base (n * base + d) s else none
]

-- The number that a text of bits stands for.
abbrev pub binary_from : ℕ → Bytes → ℕ
binary_from n [] = n
binary_from n (c ∷ s) = binary_from (n * 2 + (c - b'0')) s

-- A row: the character is a digit of the base, and its bits append it to a number.
abbrev pub IsRow : ℕ → ℕ → ℕ × Bytes → Type 0
IsRow w base (c, bits) =
    (d : ℕ) × (digit c ≡ some d)
    × (ltb d base ≡ true)
    × (length bits ≡ w)
    × ((n : ℕ) (s : Bytes) → binary_from n (bits ++ s) ≡ binary_from (n * base + d) s)

pub quad_table-IsRow : All (IsRow 4 16) quad_table
quad_table-IsRow = (
  (0, refl, refl, refl, (λ n s. ap (λ m. binary_from m s) (omega arith))),
  (
    (1, refl, refl, refl, (λ n s. ap (λ m. binary_from m s) (omega arith))),
    (
      (2, refl, refl, refl, (λ n s. ap (λ m. binary_from m s) (omega arith))),
      (
        (3, refl, refl, refl, (λ n s. ap (λ m. binary_from m s) (omega arith))),
        (
          (4, refl, refl, refl, (λ n s. ap (λ m. binary_from m s) (omega arith))),
          (
            (5, refl, refl, refl, (λ n s. ap (λ m. binary_from m s) (omega arith))),
            (
              (6, refl, refl, refl, (λ n s. ap (λ m. binary_from m s) (omega arith))),
              (
                (7, refl, refl, refl, (λ n s. ap (λ m. binary_from m s) (omega arith))),
                (
                  (8, refl, refl, refl, (λ n s. ap (λ m. binary_from m s) (omega arith))),
                  (
                    (9, refl, refl, refl, (λ n s. ap (λ m. binary_from m s) (omega arith))),
                    (
                      (10, refl, refl, refl, (λ n s. ap (λ m. binary_from m s) (omega arith))),
                      (
                        (10, refl, refl, refl, (λ n s. ap (λ m. binary_from m s) (omega arith))),
                        (
                          (11, refl, refl, refl, (λ n s. ap (λ m. binary_from m s) (omega arith))),
                          (
                            (
                              11,
                              refl,
                              refl,
                              refl,
                              (λ n s. ap (λ m. binary_from m s) (omega arith)),
                            ),
                            (
                              (
                                12,
                                refl,
                                refl,
                                refl,
                                (λ n s. ap (λ m. binary_from m s) (omega arith)),
                              ),
                              (
                                (
                                  12,
                                  refl,
                                  refl,
                                  refl,
                                  (λ n s. ap (λ m. binary_from m s) (omega arith)),
                                ),
                                (
                                  (
                                    13,
                                    refl,
                                    refl,
                                    refl,
                                    (λ n s. ap (λ m. binary_from m s) (omega arith)),
                                  ),
                                  (
                                    (
                                      13,
                                      refl,
                                      refl,
                                      refl,
                                      (λ n s. ap (λ m. binary_from m s) (omega arith)),
                                    ),
                                    (
                                      (
                                        14,
                                        refl,
                                        refl,
                                        refl,
                                        (λ n s. ap (λ m. binary_from m s) (omega arith)),
                                      ),
                                      (
                                        (
                                          14,
                                          refl,
                                          refl,
                                          refl,
                                          (λ n s. ap (λ m. binary_from m s) (omega arith)),
                                        ),
                                        (
                                          (
                                            15,
                                            refl,
                                            refl,
                                            refl,
                                            (λ n s. ap (λ m. binary_from m s) (omega arith)),
                                          ),
                                          (
                                            (
                                              15,
                                              refl,
                                              refl,
                                              refl,
                                              (λ n s. ap (λ m. binary_from m s) (omega arith)),
                                            ),
                                            tt,
                                          ),
                                        ),
                                      ),
                                    ),
                                  ),
                                ),
                              ),
                            ),
                          ),
                        ),
                      ),
                    ),
                  ),
                ),
              ),
            ),
          ),
        ),
      ),
    ),
  ),
)

pub tri_table-IsRow : All (IsRow 3 8) tri_table
tri_table-IsRow = (
  (0, refl, refl, refl, (λ n s. ap (λ m. binary_from m s) (omega arith))),
  (
    (1, refl, refl, refl, (λ n s. ap (λ m. binary_from m s) (omega arith))),
    (
      (2, refl, refl, refl, (λ n s. ap (λ m. binary_from m s) (omega arith))),
      (
        (3, refl, refl, refl, (λ n s. ap (λ m. binary_from m s) (omega arith))),
        (
          (4, refl, refl, refl, (λ n s. ap (λ m. binary_from m s) (omega arith))),
          (
            (5, refl, refl, refl, (λ n s. ap (λ m. binary_from m s) (omega arith))),
            (
              (6, refl, refl, refl, (λ n s. ap (λ m. binary_from m s) (omega arith))),
              ((7, refl, refl, refl, (λ n s. ap (λ m. binary_from m s) (omega arith))), tt),
            ),
          ),
        ),
      ),
    ),
  ),
)

pub lookup_lem :
    (w base c : ℕ) (bits : Bytes) (table : List (ℕ × Bytes))
    → All (IsRow w base) table
    → lookup c table ≡ some bits
    → IsRow w base (c, bits)
lookup_lem w base c bits [] rows h = cc
lookup_lem w base c bits ((d, b) ∷ table) (row, rows) h = elim (Bool-cases (c == d)) [
  | inl e ↦
      let same : c ≡ d = ground arith in
      let out : some b ≡ some bits = rw e at h in rw (same, sym (some-inj b bits out)) row
  | inr e ↦ lookup_lem w base c bits table rows (rw e at h)
]

pub lookup-absent :
    (c : ℕ) (table : List (ℕ × Bytes)) → lookup c table ≡ none → All (λ r. c ≢ r.0) table
lookup-absent c [] h = tt
lookup-absent c ((d, b) ∷ table) h = elim (Bool-cases (c == d)) [
  | inl e ↦ let found : some b ≡ none = rw e at h in cc
  | inr e ↦ (ground arith, lookup-absent c table (rw e at h))
]

abbrev pub next_number : ℕ → ℕ → Bytes → Option ℕ → Option ℕ
next_number base n s o = elim o [
  | none ↦ none
  | some d ↦ if ltb d base then number_from base (n * base + d) s else none
]

pub quad_absent : (c : ℕ) → All (λ r. c ≢ r.0) quad_table → digit c ≡ none
quad_absent c absent =
    let (
      d0,
      (
        d1,
        (
          d2,
          (
            d3,
            (
              d4,
              (
                d5,
                (
                  d6,
                  (
                    d7,
                    (
                      d8,
                      (
                        d9,
                        (ua, (la, (ub, (lb, (uc, (lc, (ud, (ld, (ue, (le, (uf, (lf, _)))))))))))),
                      ),
                    ),
                  ),
                ),
              ),
            ),
          ),
        ),
      ),
    ) =
      absent in
    let low : (leb b'0' c && leb c b'9') ≡ false = ground arith in
    let upper : (leb b'A' c && leb c b'F') ≡ false = ground arith in
    let lower : (leb b'a' c && leb c b'f') ≡ false = ground arith in rw (low, upper, lower) refl

pub tri_absent :
    (c n : ℕ) (s : Bytes) → All (λ r. c ≢ r.0) tri_table → number_from 8 n (c ∷ s) ≡ none
tri_absent c n s absent =
    let (d0, (d1, (d2, (d3, (d4, (d5, (d6, (d7, _)))))))) = absent in ground arith

pub long_suc : (w m n : ℕ) → n ≡ w * m → w + n ≡ w * suc m
long_suc w m n h = rw (mul-suc w m) (omega arith)

pub next_some :
    (base n d : ℕ) (s : Bytes)
    → ltb d base ≡ true
    → next_number base n s (some d) ≡ number_from base (n * base + d) s
next_some base n d s h = ground arith
