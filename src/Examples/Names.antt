-- ===== src/Examples/Names.antt =====
-- The pass on names of hif2vhdl.
use hif_backend.Prelude.{
  ℕ, suc, ◌≡◌, ◌↔◌, refl, true, List, [], ◌∷◌, some, Bytes, codes, arith, inl, inr, length,
}
use hif_backend.Hif2vhdl.IdentifierNames.{analyze_string}
use hif_backend.Hif2vhdl.IdentifierNames.Names.{
  fixed_name, IsWellSpaced, analyze_string-IsWellSpaced,
}
use hif_backend.Hif2vhdl.IdentifierNames.Renaming.{
  Visited, Names, not_a_symbol, declaration, other, after_visits,
}
use hif_backend.Hif2vhdl.IdentifierNames.Renaming.Agreement.{member, touches, after_visits-agree}

analyze_string-IsWellSpaced_example :
    (r : Bytes) × (analyze_string (suc (length (codes "_a__b"))) (codes "_a__b") ≡ some r)
    × IsWellSpaced r
    × ((r ≡ codes "_a__b") ↔ IsWellSpaced (codes "_a__b"))
analyze_string-IsWellSpaced_example = analyze_string-IsWellSpaced (codes "_a__b")

-- The declaration 0 and its two references 1 and 2; reference 1 is visited before it, 2 after it.
abbrev visits : List Visited
visits =
    record { object = 1; symbol = not_a_symbol; kind = other }
    ∷ record { object = 0; symbol = not_a_symbol; kind = declaration (1 ∷ 2 ∷ []) }
    ∷ record { object = 2; symbol = not_a_symbol; kind = other }
    ∷ []

abbrev named : Names
named = record { name = λ x. codes "_a"; design_unit = λ x. [] }

after_visits-agree_example :
    (t : Names) × (after_visits visits named ≡ some t)
    × (t.name 0 ≡ fixed_name (codes "_a"))
    × ((x : ℕ) → member x (1 ∷ 2 ∷ []) ≡ true → t.name x ≡ fixed_name (codes "_a"))
unfolding touches
after_visits-agree_example =
    after_visits-agree 0 (1 ∷ 2 ∷ []) (codes "_a") visits named
      (
        ((λ e. cc), inr (omega arith)),
        (((λ e. cc), inl (refl, refl)), (((λ e. cc), inr (omega arith)), tt)),
      )
      refl (refl, λ x m. inl refl)
