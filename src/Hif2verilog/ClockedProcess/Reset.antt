-- ===== src/Hif2verilog/ClockedProcess/Reset.antt =====
-- src/hif2verilog/PostRefine_process.cpp: the reset branch that the pass accepts.
use Prim.Native.Nat.{ℕ}
use mathlib.Core.Path.{fun_ext}
use hif_backend.Prelude.{
  ◌≡◌, refl, sym, ◌∙◌, Bool, true, false, ◌||◌, List, none, Bytes, ◌==◌, arith, Bool-cases, inl,
  inr,
}
use hif_backend.Hif2verilog.ClockedProcess.{
  Value, literal, identifier, function_call, Values, no_values, values, assign, if_action,
  other_action, Actions, no_actions, actions, is_edge_function_name, value_calls, values_calls,
  actions_calls, reads_mutable_state, values_read, check_reset,
}
use hif_backend.Hif2verilog.ClockedProcess.Semantics.{Env, eval, evals, exec, update}

-- The branch assigns the declaration, in one of its own assignments.
unfoldable pub drives : Actions → ℕ → Bool
drives no_actions x = false
drives (actions (assign t v) acts) x = x == t || drives acts x
drives (actions (if_action others defaults) acts) x = drives acts x
drives (actions (other_action vs) acts) x = drives acts x

-- Two states agree on what no run of the design changes.
abbrev pub Agree : (ℕ → Bool) → Env → Env → Type 0
Agree is_mutable e e' = (d : ℕ) → is_mutable d ≡ false → e d ≡ e' d

module _ (apply : Bytes → List ℕ → ℕ) (perform : List ℕ → Env → Env) (is_mutable : ℕ → Bool) where
  mutual
    unfolding eval reads_mutable_state value_calls is_edge_function_name

    eval-settled :
        (v : Value) (old new old' new' : Env)
        → reads_mutable_state is_mutable v ≡ false
        → value_calls v ≡ 0
        → Agree is_mutable new new'
        → eval apply perform old new v ≡ eval apply perform old' new' v
    eval-settled (literal n) old new old' new' r c h = refl
    eval-settled (identifier d) old new old' new' r c h = h d r
    eval-settled (function_call f vs) old new old' new' r c h =
        ground (arith, evals-settled vs old new old' new' r)

    evals-settled :
        (vs : Values) (old new old' new' : Env)
        → values_read is_mutable vs ≡ false
        → values_calls vs ≡ 0
        → Agree is_mutable new new'
        → evals apply perform old new vs ≡ evals apply perform old' new' vs
    evals-settled no_values old new old' new' r c h = refl
    evals-settled (values v vs) old new old' new' r c h =
        ground (arith, eval-settled v old new old' new', evals-settled vs old new old' new')

  exec-cons :
      (old new out : Env) (t : ℕ) (v : Value) (acts : Actions)
      → exec apply perform old new out (actions (assign t v) acts)
        ≡ exec apply perform old new (update out t (eval apply perform old new v)) acts
  unfolding exec
  exec-cons old new out t v acts = refl

  -- What the branch does not assign keeps its value.
  exec-undriven :
      (branch : Actions) (old new out : Env) (x : ℕ)
      → check_reset is_mutable branch ≡ none
      → drives branch x ≡ false
      → exec apply perform old new out branch x ≡ out x
  unfolding exec check_reset drives
  exec-undriven no_actions old new out x k d = refl
  exec-undriven (actions (assign t v) acts) old new out x k d =
      ground (arith, exec-undriven acts old new (update out t (eval apply perform old new v)) x)
  exec-undriven (actions (if_action others defaults) acts) old new out x k d = cc
  exec-undriven (actions (other_action vs) acts) old new out x k d = cc

  -- What the branch does to a value that it is given alike in two states is alike.
  exec-settled :
      (branch : Actions) (old new out old' new' out' : Env) (x : ℕ)
      → check_reset is_mutable branch ≡ none
      → actions_calls branch ≡ 0
      → Agree is_mutable new new'
      → out x ≡ out' x
      → exec apply perform old new out branch x ≡ exec apply perform old' new' out' branch x
  unfolding exec check_reset actions_calls
  exec-settled no_actions old new out old' new' out' x k c h e = e
  exec-settled (actions (assign t v) acts) old new out old' new' out' x k c h e = ground (
    arith,
    eval-settled v old new old' new',
    exec-settled acts old new (update out t (eval apply perform old new v)) old' new'
        (update out' t (eval apply perform old' new' v)) x,
  )
  exec-settled (actions (if_action others defaults) acts) old new out old' new' out' x k c h e = cc
  exec-settled (actions (other_action vs) acts) old new out old' new' out' x k c h e = cc

  -- What the branch assigns does not depend on what was there.
  exec-driven :
      (branch : Actions) (old new out old' new' out' : Env) (x : ℕ)
      → check_reset is_mutable branch ≡ none
      → actions_calls branch ≡ 0
      → Agree is_mutable new new'
      → drives branch x ≡ true
      → exec apply perform old new out branch x ≡ exec apply perform old' new' out' branch x
  unfolding exec check_reset actions_calls drives
  exec-driven no_actions old new out old' new' out' x k c h d = cc
  exec-driven (actions (assign t v) acts) old new out old' new' out' x k c h d =
      elim (Bool-cases (x == t)) [
        | inl y ↦ ground (
          arith,
          eval-settled v old new old' new',
          exec-settled acts old new (update out t (eval apply perform old new v)) old' new'
              (update out' t (eval apply perform old' new' v)) x,
        )
        | inr n ↦ ground (
          arith,
          eval-settled v old new old' new',
          exec-driven acts old new (update out t (eval apply perform old new v)) old' new'
              (update out' t (eval apply perform old' new' v)) x,
        )
      ]
  exec-driven (actions (if_action others defaults) acts) old new out old' new' out' x k c h d = cc
  exec-driven (actions (other_action vs) acts) old new out old' new' out' x k c h d = cc

  -- The values are as the branch leaves them.
  abbrev pub IsHeld : Actions → Env → Type 0
  IsHeld branch e =
      (old : Env) (x : ℕ) → drives branch x ≡ true → exec apply perform old e e branch x ≡ e x

  -- Where they are, and neither they nor what never changes has changed, the branch does nothing.
  pub exec_of_IsHeld :
      (branch : Actions) (old e e' : Env)
      → check_reset is_mutable branch ≡ none
      → actions_calls branch ≡ 0
      → IsHeld branch e
      → Agree is_mutable e e'
      → ((x : ℕ) → drives branch x ≡ true → e' x ≡ e x)
      → exec apply perform old e' e' branch ≡ e'
  exec_of_IsHeld branch old e e' k c held h kept = fun_ext λ x.
      elim (Bool-cases (drives branch x)) [
        | inl y ↦
            exec-driven branch old e' e' old e e x k c (λ d m. sym (h d m)) y
            ∙ held old x y
            ∙ sym (kept x y)
        | inr n ↦ exec-undriven branch old e' e' x k n
      ]

  -- A run of the branch leaves them so.
  pub exec-IsHeld :
      (branch : Actions) (old e : Env)
      → check_reset is_mutable branch ≡ none
      → actions_calls branch ≡ 0
      → Agree is_mutable e (exec apply perform old e e branch)
      → IsHeld branch (exec apply perform old e e branch)
  exec-IsHeld branch old e k c h old' x y =
      let e' = exec apply perform old e e branch in
      exec-driven branch old' e' e' old e e x k c (λ d m. sym (h d m)) y
