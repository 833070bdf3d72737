-- ===== src/Hif2verilog/ForIndices/Hoisting.antt =====
-- src/hif2verilog/PostRefine_forIndex.cpp: the loops of a process and those outside of every process.
use hif_backend.Prelude.{
  ◌≡◌, refl, Bool, false, ◌||◌, not, List, [], ◌∷◌, ◌++◌, map, append_assoc, append-nil, none, some,
  Bytes, is_empty, if◌then◌else◌, Bool-cases, Option-cases, inl, inr,
}
use mathlib.Core.List.{map-append}
use hif_backend.Hif2verilog.ForIndices.{
  Declaration, Statements, done, statement, for_loop, move_declarations, visit_for,
  visit_statements,
}

module _ {T V : Type 0} where
  -- The assignments that give declared indices their values, in order.
  abbrev pub starts : List (Declaration T V) → List (Bytes × V)
  starts [] = []
  starts (d ∷ rest) = elim d.value [ none ↦ starts rest | some v ↦ (d.name, v) ∷ starts rest ]

  abbrev pub without_value : Declaration T V → Declaration T V
  without_value d = record { name = d.name; type = d.type; value = none }

  move_declarations_lem :
      (ds : List (Declaration T V)) (vs : List (Bytes × V)) (t : List (Declaration T V))
      → move_declarations T V ds vs t ≡ (vs ++ starts ds, t ++ map without_value ds)
  unfolding move_declarations
  move_declarations_lem [] vs t = rw (append-nil vs, append-nil t) refl
  move_declarations_lem (d ∷ ds) vs t = elim (Option-cases d.value) [
    | inl e ↦
        rw
          (
            e,
            move_declarations_lem ds vs (t ++ without_value d ∷ []),
            append_assoc t (without_value d ∷ []) (map without_value ds),
          )
          refl
    | inr (v, e) ↦
        rw
          (
            e,
            move_declarations_lem ds (vs ++ (d.name, v) ∷ []) (t ++ without_value d ∷ []),
            append_assoc vs ((d.name, v) ∷ []) (starts ds),
            append_assoc t (without_value d ∷ []) (map without_value ds),
          )
          refl
  ]

  visit_for-process :
      (ds : List (Declaration T V)) (vs : List (Bytes × V)) (t : List (Declaration T V))
      → visit_for T V ds vs (some t) ≡ some ([], vs ++ starts ds, some (t ++ map without_value ds))
  unfolding visit_for
  visit_for-process [] vs t = rw (append-nil vs, append-nil t) refl
  visit_for-process (d ∷ ds) vs t = rw (move_declarations_lem (d ∷ ds) vs t) refl

module _ {T V S : Type 0} where
  -- The loops without declarations, each starting as it started.
  abbrev pub cleared : Statements T V S → Statements T V S
  cleared done = done
  cleared (statement s inner rest) = statement s (cleared inner) (cleared rest)
  cleared (for_loop ds vs body rest) = for_loop [] (vs ++ starts ds) (cleared body) (cleared rest)

  -- The declared indices, those of the inner loops first.
  abbrev pub indices : Statements T V S → List (Declaration T V)
  indices done = []
  indices (statement s inner rest) = indices inner ++ indices rest
  indices (for_loop ds vs body rest) = indices body ++ (ds ++ indices rest)

  abbrev pub declares_index : Statements T V S → Bool
  declares_index done = false
  declares_index (statement s inner rest) = declares_index inner || declares_index rest
  declares_index (for_loop ds vs body rest) =
      declares_index body || not (is_empty ds) || declares_index rest

  -- In a process that has the declarations `t` the visit goes through and leaves each loop without
  -- declarations: behind its first assignments stand those that give its indices their values, in
  -- order. Behind `t` the process has the indices of all loops without their values, those of a
  -- loop behind those of the loops in its body.
  pub visit-cleared :
      (c : Statements T V S) (t : List (Declaration T V))
      → visit_statements T V S c (some t)
        ≡ some (cleared c, some (t ++ map without_value (indices c)))
  unfolding visit_statements
  visit-cleared done t = rw (append-nil t) refl
  visit-cleared (statement s inner rest) t =
      rw
        (
          visit-cleared inner t,
          visit-cleared rest (t ++ map without_value (indices inner)),
          map-append without_value (indices inner) (indices rest),
          append_assoc t (map without_value (indices inner)) (map without_value (indices rest)),
        )
        refl
  visit-cleared (for_loop ds vs body rest) t =
      rw
        (
          visit-cleared body t,
          visit_for-process ds vs (t ++ map without_value (indices body)),
          visit-cleared rest ((t ++ map without_value (indices body)) ++ map without_value ds),
          map-append without_value (indices body) (ds ++ indices rest),
          map-append without_value ds (indices rest),
          append_assoc (t ++ map without_value (indices body)) (map without_value ds)
              (map without_value (indices rest)),
          append_assoc t (map without_value (indices body))
              (map without_value ds ++ map without_value (indices rest)),
        )
        refl

  -- Outside of every process the visit ends the program where a loop declares an index, and
  -- changes nothing where none does.
  visit-outside :
      (c : Statements T V S)
      → visit_statements T V S c none ≡ (if declares_index c then none else some (c, none))
  unfolding visit_statements visit_for
  visit-outside done = refl
  visit-outside (statement s inner rest) = elim (Bool-cases (declares_index inner)) [
    | inl e ↦ rw (visit-outside inner, e) refl
    | inr n ↦ elim (Bool-cases (declares_index rest)) [
      | inl e ↦ rw (visit-outside inner, n, visit-outside rest, e) refl
      | inr m ↦ rw (visit-outside inner, n, visit-outside rest, m) refl
    ]
  ]
  visit-outside (for_loop [] vs body rest) = elim (Bool-cases (declares_index body)) [
    | inl e ↦ rw (visit-outside body, e) refl
    | inr n ↦ elim (Bool-cases (declares_index rest)) [
      | inl e ↦ rw (visit-outside body, n, visit-outside rest, e) refl
      | inr m ↦ rw (visit-outside body, n, visit-outside rest, m) refl
    ]
  ]
  visit-outside (for_loop (d ∷ ds) vs body rest) = elim (Bool-cases (declares_index body)) [
    | inl e ↦ rw (visit-outside body, e) refl
    | inr n ↦ rw (visit-outside body, n) refl
  ]
