-- ===== src/Support/Parity.antt =====
-- src/hif2scSupport/hif_systemc_extensions.cpp: `hif_xorrd`, the exclusive or of a word's bits.
use mathlib.Core.Bool.{xor}
use native.Mathlib.Nat.{pow-suc}
use hif_backend.Prelude.{
  ℕ, zero, suc, ◌+◌, ◌/◌, ◌%◌, ◌^◌, ◌<◌, ◌≡◌, refl, sym, ap, ◌∙◌, Bool, Option, none, some, ◌==◌,
  if◌then◌else◌, arith,
}

-- The lowest bit, `tmp & 1`.
abbrev pub low_bit : ℕ → Bool
low_bit v = v % 2 == 1

-- `while (tmp != 0) { res ^= tmp & 1; tmp = tmp / 2; }`; `none` means that the fuel ran out.
xor_loop : ℕ → ℕ → Bool → Option Bool
xor_loop zero tmp res = none
xor_loop (suc fuel) tmp res =
    let rest = xor_loop fuel (tmp / 2) (xor res (low_bit tmp)) in
    if tmp == 0 then some res else rest

unfoldable pub hif_xorrd : ℕ → ℕ → Option Bool
unfolding xor_loop
hif_xorrd fuel v = xor_loop fuel (v / 2) (low_bit v)

-- How many of the lowest `w` bits of `v` are set.
unfoldable pub ones : ℕ → ℕ → ℕ
ones zero v = 0
ones (suc w) v = v % 2 + ones w (v / 2)

ones-zero : (w : ℕ) → ones w 0 ≡ 0
unfolding ones
ones-zero zero = refl
ones-zero (suc w) = omega (arith, ones-zero w)

low_bit-add :
    (v n : ℕ) (res : Bool) → xor (xor res (low_bit v)) (low_bit n) ≡ xor res (low_bit (v % 2 + n))
unfolding xor
low_bit-add v n res = ground arith

xor_loop-ones :
    (w fuel tmp : ℕ) (res : Bool)
    → tmp < 2 ^ w
    → w < fuel
    → xor_loop fuel tmp res ≡ some (xor res (low_bit (ones w tmp)))
unfolding xor_loop ones xor
xor_loop-ones w zero tmp res h f = elim f [ ]
xor_loop-ones zero (suc fuel) tmp res h f = let e : tmp ≡ 0 = omega arith in rw e (ground arith)
xor_loop-ones (suc w) (suc fuel) tmp res h f = ground (
  arith,
  pow-suc 2 w,
  ones-zero w,
  low_bit-add tmp (ones w (tmp / 2)) res,
  xor_loop-ones w fuel (tmp / 2) (xor res (low_bit tmp)),
)

low_bit-add_first : (v n : ℕ) → xor (low_bit v) (low_bit n) ≡ low_bit (v % 2 + n)
unfolding xor
low_bit-add_first v n = ground arith

ones-suc : (w v : ℕ) → ones (suc w) v ≡ v % 2 + ones w (v / 2)
unfolding ones
ones-suc w v = refl

-- On a word below 2^64 `hif_xorrd` ends within 64 rounds of its loop, and yields 1 if an odd number of
-- the word's 64 bits are set and 0 otherwise.
hif_xorrd-ones : (v : ℕ) → v < 2 ^ 64 → hif_xorrd 64 v ≡ some (low_bit (ones 64 v))
unfolding hif_xorrd
hif_xorrd-ones v h =
    xor_loop-ones 63 64 (v / 2) (low_bit v) (omega arith) (omega arith)
    ∙ ap some
        (low_bit-add_first v (ones 63 (v / 2)) ∙ ap (λ (n : ℕ). low_bit n) (sym (ones-suc 63 v)))
