-- ===== src/Support/StdLogic1164/Resolution.antt =====
-- src/hif2scSupport/hif_vhdl_ieee_std_logic_1164.cpp: the resolution of the drivers of a signal,
-- and an independent description of it that forgets their order and number.
use mathlib.Core.Quot
use mathlib.Core.Quot.{Quot}
use hif_backend.Prelude.{
  ◌≡◌, ◌≢◌, refl, sym, ap, ◌∙◌, Bool, true, false, ◌||◌, List, [], ◌∷◌, some, ◌==◌, arith,
  Bool-cases, inl, inr,
}
use hif_backend.Support.FourState.{
  Level, logic_0, logic_1, logic_z, logic_x, level_char, is_binary, FourState, IsFourState,
}
use hif_backend.Support.StdLogic1164.{
  logic_index, resolution_table, resolve_step, resolve_loop, hif_vhdl_resolved, hif_vhdl_to_bit,
  hif_vhdl_to_x01, hif_vhdl_is_x,
}

Level_set : IsSet Level
Level_set = hlevel

-- The value of a signal that some driver sets to 0, some to 1 or some to X: a conflict is unknown,
-- and with no such driver the signal is off.
abbrev pub driven : Bool → Bool → Bool → Level
driven at_0 at_1 true = logic_x
driven true true false = logic_x
driven true false false = logic_0
driven false true false = logic_1
driven false false false = logic_z

abbrev is_0 : Level → Bool
is_0 l = elim l [ logic_0 ↦ true | _ ↦ false ]

abbrev is_1 : Level → Bool
is_1 l = elim l [ logic_1 ↦ true | _ ↦ false ]

abbrev is_x : Level → Bool
is_x l = elim l [ logic_x ↦ true | _ ↦ false ]

-- The value of two drivers.
abbrev join : Level → Level → Level
join l m = driven (is_0 l || is_0 m) (is_1 l || is_1 m) (is_x l || is_x m)

join-driven :
    (l m : Level) (a b c : Bool)
    → driven (is_0 (join l m) || a) (is_1 (join l m) || b) (is_x (join l m) || c)
      ≡ driven
          (is_0 l || (level_char m == b'0' || a))
          (is_1 l || (level_char m == b'1' || b))
          (is_x l || (level_char m == b'X' || c))
unfolding level_char
join-driven l m a b c = ground arith

driven-single :
    (m : Level)
    → m
      ≡ driven
          (level_char m == b'0' || false)
          (level_char m == b'1' || false)
          (level_char m == b'X' || false)
unfolding level_char
driven-single m = ground arith

abbrev strip : Level → Level
strip l = elim l [ logic_z ↦ logic_x | other ↦ other ]

abbrev bit_of : Level → Bool → Bool
bit_of l xmap = elim l [ logic_0 ↦ false | logic_1 ↦ true | _ ↦ xmap ]

same_char : (l m : Level) → level_char l ≡ level_char m → true ≡ (level_char l == level_char m)
unfolding level_char
same_char l m h = ground arith

other_char : (l m : Level) → l ≢ m → false ≡ (level_char l == level_char m)
unfolding level_char
other_char l m h = ground arith

module _ (F : FourState) where
  -- Some driver has this level.
  abbrev pub drives : Level → List F.Logic → Bool
  drives l [] = false
  drives l (v ∷ s) = F.to_char v == level_char l || drives l s

  -- The drivers of a signal with their order and number forgotten.
  abbrev pub SameDrivers : List F.Logic → List F.Logic → Type 0
  SameDrivers s t = (l : Level) → drives l s ≡ drives l t

  abbrev pub Drivers : Type 0
  Drivers = Quot SameDrivers

  abbrev signal_of : List F.Logic → Level
  signal_of s = driven (drives logic_0 s) (drives logic_1 s) (drives logic_x s)

  pub resolution : Drivers → Level
  resolution =
      Quot.lift Level_set signal_of (λ s t same. rw (same logic_0, same logic_1, same logic_x))

  abbrev logic : Level → F.Logic
  logic l = F.of_char (level_char l)

  module _ (good : IsFourState F) where
    step-join : (l m : Level) → resolve_step F (logic l) (logic m) ≡ some (logic (join l m))
    unfolding resolve_step logic_index resolution_table level_char
    step-join l m = rw (good.to_char-of_char l, good.to_char-of_char m) (ground arith)

    resolve_loop_lem :
        (s : List F.Logic) (l : Level)
        → resolve_loop F s (logic l)
          ≡ some (
              logic (
                driven
                  (is_0 l || drives logic_0 s)
                  (is_1 l || drives logic_1 s)
                  (is_x l || drives logic_x s)))
    unfolding resolve_loop level_char
    resolve_loop_lem [] logic_0 = refl
    resolve_loop_lem [] logic_1 = refl
    resolve_loop_lem [] logic_z = refl
    resolve_loop_lem [] logic_x = refl
    resolve_loop_lem (v ∷ s) l =
        let (m, e) = good.levels v in
        rw (e, step-join l m, resolve_loop_lem s (join l m), good.to_char-of_char m)
          (ap (λ k. some (logic k)) (join-driven l m _ _ _))

    -- The resolution of the drivers of a signal never fails and is the value of the signal that the
    -- drivers make with their order and their number forgotten: off, if each of them is, unknown,
    -- if one is or if one is 0 and one is 1, and else the value of those that are not off.
    pub hif_vhdl_resolved-resolution :
        (s : List F.Logic)
        → hif_vhdl_resolved F s ≡ some (F.of_char (level_char (resolution (Quot.mk s))))
    unfolding hif_vhdl_resolved resolution level_char
    hif_vhdl_resolved-resolution [] = rw (good.of_char_lower) (resolve_loop_lem [] logic_z)
    hif_vhdl_resolved-resolution (v ∷ []) =
        let (m, e) = good.levels v in
        rw (e, good.to_char-of_char m) (ap (λ k. some (logic k)) (driven-single m))
    hif_vhdl_resolved-resolution (v ∷ w ∷ s) =
        rw (good.of_char_lower) (resolve_loop_lem (v ∷ w ∷ s) logic_z)

    logic_eq-logic : (l m : Level) → F.logic_eq (logic l) (logic m) ≡ (level_char l == level_char m)
    unfolding level_char
    logic_eq-logic l m = elim (Bool-cases (F.logic_eq (logic l) (logic m))) [
      | inl same ↦ rw same (
          same_char l m (
            sym (good.to_char-of_char l)
            ∙ ap F.to_char ((good.logic_eq_iff (logic l) (logic m)).0 same)
            ∙ good.to_char-of_char m))
      | inr other ↦ rw other (
          other_char l m
            (λ e. let same = (good.logic_eq_iff (logic l) (logic m)).1 (ap logic e) in cc))
    ]

    to_x01-logic : (l : Level) → hif_vhdl_to_x01 F (logic l) ≡ logic (strip l)
    unfolding hif_vhdl_to_x01 level_char
    to_x01-logic l = rw (good.to_char-of_char l) (ground arith)

    to_bit-logic : (l : Level) (xmap : Bool) → hif_vhdl_to_bit F (logic l) xmap ≡ bit_of l xmap
    unfolding hif_vhdl_to_bit level_char
    to_bit-logic l xmap = rw (logic_eq-logic l logic_1, logic_eq-logic l logic_0) (ground arith)

    -- A value converted to one of X, 0 and 1 is never off; the conversion changes neither whether
    -- it counts as unknown nor the bit it is read as, and is the same the second time.
    hif_vhdl_to_x01-Strips :
        (v : F.Logic) (xmap : Bool)
        → (F.to_char (hif_vhdl_to_x01 F v) ≢ b'Z')
          × (hif_vhdl_is_x F (hif_vhdl_to_x01 F v) ≡ hif_vhdl_is_x F v)
          × (hif_vhdl_to_bit F (hif_vhdl_to_x01 F v) xmap ≡ hif_vhdl_to_bit F v xmap)
          × (hif_vhdl_to_x01 F (hif_vhdl_to_x01 F v) ≡ hif_vhdl_to_x01 F v)
    unfolding hif_vhdl_is_x level_char is_binary
    hif_vhdl_to_x01-Strips v xmap =
        let (l, e) = good.levels v in
        rw
          (
            e,
            to_x01-logic l,
            to_x01-logic (strip l),
            good.to_char-of_char (strip l),
            good.is_01-of_char l,
            good.is_01-of_char (strip l),
            to_bit-logic l xmap,
            to_bit-logic (strip l) xmap,
          )
          (ground arith)
