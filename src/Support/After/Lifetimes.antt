-- ===== src/Support/After/Lifetimes.antt =====
-- The delayed assignments over the whole of a run in which objects are made, copied, called and
-- destroyed in any order; `sc_spawn` copies its argument, and no other operation is used.
use hif_backend.Prelude.{
  some-inj, ℕ, ◌≡◌, ◌≢◌, refl, sym, ap, ◌∙◌, Bool, true, false, Option, none, some, if◌then◌else◌,
}
use mathlib.Core.Path.{subst}
use hif_backend.Support.After.{Key, After, Store, put, construct, copy, destroy, call}
use hif_backend.Support.After.Pending.{IsSound, construct-IsSound, copy-IsSound, destroy-IsSound}

abbrev pub no_objects : (ℕ → ℕ) → Store
no_objects values = record { objects = λ i. none; after_map = λ k. none; values = values }

-- A step; a new object stands at an address where none is alive.
pub data Step : Store → Store → Type 0 where
  constructed :
      (s t : Store) (i event : ℕ) (k : Key) (target value : ℕ)
      → s.objects i ≡ none
      → construct i event k target value s ≡ some t
      → Step s t
  copied : (s t : Store) (i other : ℕ) → s.objects i ≡ none → copy i other s ≡ some t → Step s t
  destroyed : (s t : Store) (i : ℕ) → destroy i s ≡ some t → Step s t
  called : (s t : Store) (i : ℕ) → call i s ≡ some t → Step s t

pub data Reachable : Store → Type 0 where
  started : (values : ℕ → ℕ) → Reachable (no_objects values)
  stepped : (s t : Store) → Reachable s → Step s t → Reachable t

alive_of :
    {A : Type 0} (f : After → Option A) (o : Option After) (a : A)
    → elim o [ none ↦ none | some x ↦ f x ] ≡ some a
    → (x : After) × (o ≡ some x)
alive_of f none a h = cc
alive_of f (some x) a h = (x, refl)

-- A write to a variable leaves the objects and the table alone.
write-IsSound :
    (s t : Store) (values : ℕ → ℕ) (b : Bool)
    → (if b then record s { values = values } else s) ≡ t
    → IsSound s
    → IsSound t
write-IsSound s t values true e sound = subst IsSound e sound
write-IsSound s t values false e sound = subst IsSound e sound

Step-IsSound : (s t : Store) → Step s t → IsSound s → IsSound t
unfolding copy destroy call
Step-IsSound s t (constructed _ _ i event k target value free e) sound =
    let (u, f, done) = construct-IsSound s i event k target value sound free in
    subst IsSound (some-inj u t (sym f ∙ e)) done
Step-IsSound s t (copied _ _ i other free e) sound =
    let (o, alive) = alive_of _ (s.objects other) t e in
    let (u, f, done) = copy-IsSound s i other o sound free alive in
    subst IsSound (some-inj u t (sym f ∙ e)) done
Step-IsSound s t (destroyed _ _ i e) sound =
    let (o, alive) = alive_of _ (s.objects i) t e in
    let (u, f, done) = destroy-IsSound s i o sound alive in
    subst IsSound (some-inj u t (sym f ∙ e)) done
Step-IsSound s t (called _ _ i e) sound =
    let (o, alive) = alive_of _ (s.objects i) t e in
    let e' : some (if o.is_active then record s { values = put o.target o.value s.values } else s)
        ≡ some t =
      rw (call, alive) at e in
    write-IsSound s t _ o.is_active (some-inj _ t e') sound

pub Reachable-IsSound : (s : Store) → Reachable s → IsSound s
Reachable-IsSound s (started values) = ((λ k i h. cc), (λ i o h a. cc))
Reachable-IsSound t (stepped s _ r step) = Step-IsSound s t step (Reachable-IsSound s r)

-- In every state of a run each operation can proceed: a construction and a copy at an address where
-- no object is alive, the copy and the destruction of an object that is alive, follow no pointer to
-- an object that is destroyed.
pub Reachable-progress :
    (s : Store) (i other event : ℕ) (k : Key) (target value : ℕ) (o : After)
    → Reachable s
    → s.objects i ≡ none
    → s.objects other ≡ some o
    → ((t : Store) × (construct i event k target value s ≡ some t))
      × ((t : Store) × (copy i other s ≡ some t))
      × ((t : Store) × (destroy other s ≡ some t))
Reachable-progress s i other event k target value o r free alive =
    let sound = Reachable-IsSound s r in
    let (t, e, _) = construct-IsSound s i event k target value sound free in
    let (u, f, _) = copy-IsSound s i other o sound free alive in
    let (v, g, _) = destroy-IsSound s other o sound alive in ((t, e), (u, f), (v, g))

-- In every state of a run two different objects that are both active differ in their line, file or
-- time: of the delayed assignments made at one place and time at most one is pending.
pub active_unique :
    (s : Store) (i j : ℕ) (o q : After)
    → Reachable s
    → i ≢ j
    → s.objects i ≡ some o
    → s.objects j ≡ some q
    → o.is_active ≡ true
    → q.is_active ≡ true
    → o.key ≢ q.key
active_unique s i j o q r n a b act act' k =
    let (listed, pending) = Reachable-IsSound s r in
    n (some-inj i j (sym (pending i o a act) ∙ ap s.after_map k ∙ pending j q b act'))
