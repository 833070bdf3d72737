-- ===== src/Support/After.antt =====
-- src/hif2scSupport/hif_after.cpp and include/hif2scSupport/hif2scSupport/hif_after.i.hpp: the delayed
-- assignments and the table of the last one made at each place and time. Objects are a store from
-- addresses; `none` as a result is a pointer followed to an object that is destroyed.
pub mod Lookup
pub mod Pending
pub mod Lifetimes
pub mod Assignment
use hif_backend.Prelude.{
  ℕ, ◌≡◌, Bool, true, false, ◌&&◌, Option, none, some, Bytes, bytes_eq, ◌==◌, if◌then◌else◌,
}

-- `AfterKey2`; the time is that of the simulator, in its own units.
pub record Key : Type 0 where
  pub line : ℕ
  pub file : Bytes
  pub time : ℕ

unfoldable pub key_eq : Key → Key → Bool
key_eq k l = k.line == l.line && bytes_eq k.file l.file && k.time == l.time

-- `IHifAfter` with the members of `HifAfter`; the file, the line and the time are the key.
pub record After : Type 0 where
  pub event : Option ℕ
  pub key : Key
  pub is_active : Bool
  pub target : ℕ
  pub value : ℕ

-- The objects that are alive, `_afterMap`, and the variables of the design.
pub record Store : Type 0 where
  pub objects : ℕ → Option After
  pub after_map : Key → Option ℕ
  pub values : ℕ → ℕ

unfoldable pub put : {A : Type 0} → ℕ → A → (ℕ → A) → ℕ → A
put i a f j = if j == i then a else f j

unfoldable pub put_key : Key → Option ℕ → (Key → Option ℕ) → Key → Option ℕ
put_key k i f l = if key_eq l k then i else f l

-- `disable`.
unfoldable pub disable : ℕ → Store → Option Store
disable i s = elim (s.objects i) [
  | none ↦ none
  | some o ↦ some (record s { objects = put i (some (record o { is_active = false })) s.objects })
]

-- `_hif_after_register`.
unfoldable pub register : ℕ → Key → Store → Option Store
register i k s = elim (s.after_map k) [
  | none ↦ some (record s { after_map = put_key k (some i) s.after_map })
  | some other ↦ elim (disable other s) [
    | none ↦ none
    | some t ↦ some (record t { after_map = put_key k (some i) t.after_map })
  ]
]

-- `_hif_after_unregister`.
unfoldable pub unregister : ℕ → Key → Store → Store
unregister i k s = elim (s.after_map k) [
  | none ↦ s
  | some other ↦ if other == i then record s { after_map = put_key k none s.after_map } else s
]

-- The constructor, at the address `i`, with the event that it makes.
unfoldable pub construct : ℕ → ℕ → Key → ℕ → ℕ → Store → Option Store
construct i event k target value s = register i k (record s {
  objects =
      put i
        (some (record {
          event = some event;
          key = k;
          is_active = true;
          target = target;
          value = value;
        }))
        s.objects;
})

-- The copy constructor, at the address `i`: the event moves to the copy.
unfoldable pub copy : ℕ → ℕ → Store → Option Store
copy i other s = elim (s.objects other) [
  | none ↦ none
  | some o ↦ register i o.key (record s {
    objects = put i (some o) (put other (some (record o { event = none })) s.objects);
  })
]

-- The destructor; deleting the event is left out.
unfoldable pub destroy : ℕ → Store → Option Store
destroy i s = elim (s.objects i) [
  | none ↦ none
  | some o ↦ let t = unregister i o.key s in some (record t { objects = put i none t.objects })
]

-- `swap`: all members, the table as it is.
unfoldable pub swap : ℕ → ℕ → Store → Option Store
swap i j s = elim (s.objects i) [
  | none ↦ none
  | some o ↦ elim (s.objects j) [
    | none ↦ none
    | some p ↦ some (record s { objects = put i (some p) (put j (some o) s.objects) })
  ]
]

-- `operator=`, whose local copy stands at the address `tmp`.
unfoldable pub assign : ℕ → ℕ → ℕ → Store → Option Store
assign tmp i other s = elim (copy tmp other s) [
  | none ↦ none
  | some t ↦ elim (swap i tmp t) [ none ↦ none | some u ↦ destroy tmp u ]
]

-- `operator()`.
unfoldable pub call : ℕ → Store → Option Store
call i s = elim (s.objects i) [
  | none ↦ none
  | some o ↦ some (if o.is_active then record s { values = put o.target o.value s.values } else s)
]
