-- ===== src/Support/StdLogic1164.antt =====
-- src/hif2scSupport/hif_vhdl_ieee_std_logic_1164.cpp: the resolution of drivers and the conversions
-- of IEEE.STD_LOGIC_1164 on SystemC's four values. A vector is the list of its bits from index 0 on;
-- `none` stands for a failed assertion.
pub mod Resolution
use hif_backend.Prelude.{
  ℕ, zero, suc, ◌-◌, Bool, true, false, ◌&&◌, not, List, [], ◌∷◌, Option, none, some, Bytes, codes,
  leb, ◌==◌, ◌>>=◌, if◌then◌else◌,
}
use hif_backend.Support.FourState.{FourState}

-- `toupper` in the C locale.
abbrev pub toupper : ℕ → ℕ
toupper c = if leb b'a' c && leb c b'z' then c - 32 else c

unfoldable pub logic_index : ℕ → Option ℕ
logic_index v =
    let c = toupper v in
    if c == b'X'
    then some 1
    else if c == b'0'
    then some 2
    else if c == b'1'
    then some 3
    else if c == b'Z'
    then some 4
    else none

unfoldable pub resolution_table : List Bytes
resolution_table =
    codes "UUUUUUUUU"
    ∷ codes "UXXXXXXXX"
    ∷ codes "UX0X0000X"
    ∷ codes "UXX11111X"
    ∷ codes "UX01ZWLHX"
    ∷ codes "UX01WWWWX"
    ∷ codes "UX01LWLWX"
    ∷ codes "UX01HWWHX"
    ∷ codes "UXXXXXXXX"
    ∷ []

abbrev pub nth : {A : Type 0} → List A → ℕ → Option A
nth [] n = none
nth (x ∷ xs) zero = some x
nth (x ∷ xs) (suc n) = nth xs n

-- The functions of the file, over the logic values of SystemC.
module _ (F : FourState) where
  -- The body of the loop: the result so far, resolved with one more driver.
  unfoldable pub resolve_step : F.Logic → F.Logic → Option F.Logic
  resolve_step result driver = do
    a ← logic_index (F.to_char result)
    b ← logic_index (F.to_char driver)
    row ← nth resolution_table a
    c ← nth row b
    some (F.of_char c)

  unfoldable pub resolve_loop : List F.Logic → F.Logic → Option F.Logic
  resolve_loop [] result = some result
  resolve_loop (d ∷ s) result = do next ← resolve_step result d; resolve_loop s next

  unfoldable pub hif_vhdl_resolved : List F.Logic → Option F.Logic
  hif_vhdl_resolved [] = resolve_loop [] (F.of_char b'z')
  hif_vhdl_resolved (d ∷ []) = some d
  hif_vhdl_resolved (d ∷ e ∷ s) = resolve_loop (d ∷ e ∷ s) (F.of_char b'z')

  unfoldable pub hif_vhdl_to_bit : F.Logic → Bool → Bool
  hif_vhdl_to_bit s xmap =
      if F.logic_eq s (F.of_char b'1')
      then true
      else if F.logic_eq s (F.of_char b'0')
      then false
      else xmap

  unfoldable pub hif_vhdl_to_x01 : F.Logic → F.Logic
  hif_vhdl_to_x01 s = if not (toupper (F.to_char s) == b'Z') then s else F.of_char b'X'

  unfoldable pub hif_vhdl_to_ux01 : F.Logic → F.Logic
  hif_vhdl_to_ux01 s = hif_vhdl_to_x01 s

  unfoldable pub hif_vhdl_is_x : F.Logic → Bool
  hif_vhdl_is_x s = not (F.is_01 s)
