-- ===== src/Examples/Delayed.antt =====
-- Delayed assignments.
use hif_backend.Prelude.{ℕ, ◌≡◌, ◌≢◌, refl, true, none, some, codes, arith}
use hif_backend.Support.After.{
  Key, After, Store, put, put_key, construct, copy, destroy, assign, register, key_eq,
}
use hif_backend.Support.After.Lifetimes.{
  no_objects, Reachable, started, stepped, constructed, active_unique, Reachable-progress,
}
use hif_backend.Support.After.Assignment.{construct-assign}

abbrev key_at : ℕ → Key
key_at n = record { line = n; file = codes "top.cpp"; time = 10 }

abbrev pending_at : ℕ → ℕ → After
pending_at e n = record { event = some e; key = key_at n; is_active = true; target = 0; value = n }

abbrev one : Store
one = record {
  objects = put 0 (some (pending_at 7 1)) (λ i. none);
  after_map = put_key (key_at 1) (some 0) (λ k. none);
  values = λ x. 0;
}

abbrev two : Store
two = record {
  objects = put 1 (some (pending_at 8 2)) (one.objects);
  after_map = put_key (key_at 2) (some 1) (one.after_map);
  values = λ x. 0;
}

two-Reachable : Reachable two
unfolding construct register put_key key_eq put
two-Reachable =
    stepped one two
      (stepped (no_objects (λ x. 0)) one (started (λ x. 0))
        (constructed (no_objects (λ x. 0)) one 0 7 (key_at 1) 0 1 refl refl))
      (constructed one two 1 8 (key_at 2) 0 2 refl refl)

active_unique_example : key_at 1 ≢ key_at 2
unfolding put
active_unique_example =
    active_unique two 0 1 (pending_at 7 1) (pending_at 8 2) two-Reachable (omega arith) refl refl
      refl refl

Reachable-progress_example :
    ((t : Store) × (construct 2 9 (key_at 1) 0 5 two ≡ some t))
    × ((t : Store) × (copy 2 0 two ≡ some t))
    × ((t : Store) × (destroy 0 two ≡ some t))
unfolding put
Reachable-progress_example =
    Reachable-progress two 2 0 9 (key_at 1) 0 5 (pending_at 7 1) two-Reachable refl refl

construct-assign_example :
    (t : Store) × (assign 2 0 1 two ≡ some t) × (construct 3 9 (key_at 2) 0 5 t ≡ none)
unfolding put
construct-assign_example =
    construct-assign two 2 0 1 (pending_at 7 1) (pending_at 8 2) 3 9 0 5 two-Reachable refl refl
      refl (λ e. cc) (omega arith)
