-- ===== src/Hif2verilog/Timescale/Delays.antt =====
-- src/hif2verilog/VerilogPrinter.cpp: the absolute delays of a view, and those that resolveTimescale
-- collects.
use mathlib.Core.Path.{subst}
use hif_backend.Prelude.{
  ℕ, ◌≡◌, ◌⊎◌, inl, inr, refl, sym, ap, Bool, List, [], ◌∷◌, ◌++◌, Option, none, some, append-nil,
}
use hif_backend.Hif2verilog.Timescale.{
  TimeUnit, TimeValue, Value, time, identifier, mult, other, View, given, absolute, delays,
}

later : {A B C : Type 0} → B ⊎ C → (A ⊎ B) ⊎ C
later (inl b) = inl (inr b)
later (inr c) = inr c

module _ (Real : Type 0) (at_least : Real → ℕ → Bool) (rank : TimeUnit → ℕ) where
  -- The times that are delays of assignments or times of waits.
  abbrev Occurs : List (Option (Value Real)) → TimeValue Real → Type 0
  Occurs [] t = ⊥
  Occurs (d ∷ ds) t = (d ≡ some (time t)) ⊎ Occurs ds t

  abbrev pub IsDelay : View Real → TimeValue Real → Type 0
  IsDelay view t = Occurs view.assign_delays t ⊎ Occurs view.wait_times t

  abbrev pub In : TimeValue Real → List (TimeValue Real) → Type 0
  In t [] = ⊥
  In t (u ∷ us) = (u ≡ t) ⊎ In t us

  pub In-cons :
      (t : TimeValue Real) (ts : List (TimeValue Real))
      → In t ts
      → (u : TimeValue Real) × (us : List (TimeValue Real)) × (ts ≡ u ∷ us)
  In-cons t [] absurd = elim absurd [ ]
  In-cons t (u ∷ us) h = (u, us, refl)

  -- The collected times of a list of delays and further values are those of either.
  abbrev collected : List (Option (Value Real)) → List (Value Real) → List (TimeValue Real)
  collected ds rest = absolute Real at_least rank (given Real at_least rank ds ++ rest)

  collected-right :
      (t : TimeValue Real) (ds : List (Option (Value Real))) (rest : List (Value Real))
      → In t (absolute Real at_least rank rest)
      → In t (collected ds rest)
  unfolding absolute given
  collected-right t [] rest h = h
  collected-right t (none ∷ ds) rest h = collected-right t ds rest h
  collected-right t (some (time u) ∷ ds) rest h = inr (collected-right t ds rest h)
  collected-right t (some (identifier n) ∷ ds) rest h = collected-right t ds rest h
  collected-right t (some (mult v w) ∷ ds) rest h = collected-right t ds rest h
  collected-right t (some (other n) ∷ ds) rest h = collected-right t ds rest h

  collected-left :
      (t : TimeValue Real) (ds : List (Option (Value Real))) (rest : List (Value Real))
      → Occurs ds t
      → In t (collected ds rest)
  unfolding absolute given
  collected-left t [] rest absurd = elim absurd [ ]
  collected-left t (d ∷ ds) rest (inl e) =
      subst (λ v. In t (collected (v ∷ ds) rest)) (sym e) (inl refl)
  collected-left t (none ∷ ds) rest (inr h) = collected-left t ds rest h
  collected-left t (some (time u) ∷ ds) rest (inr h) = inr (collected-left t ds rest h)
  collected-left t (some (identifier n) ∷ ds) rest (inr h) = collected-left t ds rest h
  collected-left t (some (mult v w) ∷ ds) rest (inr h) = collected-left t ds rest h
  collected-left t (some (other n) ∷ ds) rest (inr h) = collected-left t ds rest h

  collected-either :
      (t : TimeValue Real) (ds : List (Option (Value Real))) (rest : List (Value Real))
      → In t (collected ds rest)
      → Occurs ds t ⊎ In t (absolute Real at_least rank rest)
  unfolding absolute given
  collected-either t [] rest h = inr h
  collected-either t (none ∷ ds) rest h = later (collected-either t ds rest h)
  collected-either t (some (time u) ∷ ds) rest (inl e) = inl (inl (ap (λ v. some (time v)) e))
  collected-either t (some (time u) ∷ ds) rest (inr h) = later (collected-either t ds rest h)
  collected-either t (some (identifier n) ∷ ds) rest h = later (collected-either t ds rest h)
  collected-either t (some (mult v w) ∷ ds) rest h = later (collected-either t ds rest h)
  collected-either t (some (other n) ∷ ds) rest h = later (collected-either t ds rest h)

  collected-nil :
      (ds : List (Option (Value Real)))
      → given Real at_least rank ds ++ [] ≡ given Real at_least rank ds
  collected-nil ds = append-nil (given Real at_least rank ds)

  pub IsDelay-In :
      (view : View Real) (t : TimeValue Real)
      → IsDelay view t
      → In t (absolute Real at_least rank (delays Real at_least rank view))
  unfolding delays
  IsDelay-In view t (inl h) =
      collected-left t view.assign_delays (given Real at_least rank view.wait_times) h
  IsDelay-In view t (inr h) =
      collected-right t view.assign_delays (given Real at_least rank view.wait_times) (
        subst (λ l. In t (absolute Real at_least rank l)) (collected-nil view.wait_times)
          (collected-left t view.wait_times [] h))

  pub In-IsDelay :
      (view : View Real) (t : TimeValue Real)
      → In t (absolute Real at_least rank (delays Real at_least rank view))
      → IsDelay view t
  unfolding delays absolute
  In-IsDelay view t h =
      elim (collected-either t view.assign_delays (given Real at_least rank view.wait_times) h) [
        | inl is ↦ inl is
        | inr waits ↦
            elim (collected-either t view.wait_times [] (
              subst (λ l. In t (absolute Real at_least rank l))
                (sym (collected-nil view.wait_times)) waits)) [
                  | inl is ↦ inr is
                  | inr nowhere ↦ elim nowhere [ ]
                ]
      ]
