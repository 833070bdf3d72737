-- ===== src/Hif2verilog/InoutPorts/Drivers.antt =====
-- src/hif2verilog/PostRefine_inoutPort.cpp: what the processes assign after the pass, and what they
-- read.
use hif_backend.Prelude.{
  ◌≡◌, refl, ap, ◌∙◌, Bool, true, false, arith, ◌&&◌, List, [], ◌∷◌, ◌++◌, map, some, Bytes,
  bytes_eq, codes, All, Bool-cases, and-false, inl, inr,
}
use hif_backend.Hif.{dir_inout}
use hif_backend.Hif2verilog.InoutPorts.{
  is_inout, Port, Contents, add_driver, visit_port, visit_ports, visit_view,
}
use hif_backend.Hif2verilog.InoutPorts.Targets.{
  IsUnassigned, driven-IsUnassigned, driven, driven-collect, driven-retarget, driven-retarget_own,
  reads-retarget, and-false_right, nets, Joined, nets-retarget, Joined-add_action,
}

and-second : (b c : Bool) → b ≡ true → (b && c) ≡ false → c ≡ false
and-second b c e h = ground arith

module _ (T V : Type 0) (fresh_name : Contents T V → Bytes → Bytes)
    (type_default_value : T → V) where
  -- The port is no inout or nothing assigns it by `drives`.
  abbrev Undriven : Port T V → Contents T V → Type 0
  Undriven p c = (is_inout p.direction && driven p.name c.assigns) ≡ false

  abbrev pub IsFresh : List (Port T V) → Type 0
  IsFresh ports =
      (c : Contents T V) (base : Bytes)
      → All (λ p. bytes_eq (fresh_name c base) p.name ≡ false) ports

  -- What a round of the loop does, for a port and any other.
  visit_port_lem :
      (P : Contents T V → Type 0) (p : Port T V) (c : Contents T V)
      → ((is_inout p.direction && driven p.name c.assigns) ≡ false → P c)
      → P (add_driver T V fresh_name type_default_value p c)
      → P (visit_port T V fresh_name type_default_value p c)
  unfolding visit_port
  visit_port_lem P p c same changed = elim (Bool-cases (is_inout p.direction)) [
    | inr no_inout ↦ rw no_inout (same (rw no_inout refl))
    | inl inout ↦ elim (Bool-cases (driven p.name c.assigns)) [
      | inr fine ↦ rw (inout, driven-collect p.name c.assigns, fine) (same (rw (inout, fine) refl))
      | inl assigned ↦ rw (inout, driven-collect p.name c.assigns, assigned) changed
    ]
  ]

  visit_port-keeps :
      (q p : Port T V) (c : Contents T V)
      → bytes_eq (fresh_name c (q.name ++ codes "_drv")) p.name ≡ false
      → Undriven p c
      → Undriven p (visit_port T V fresh_name type_default_value q c)
  unfolding add_driver
  visit_port-keeps q p c f h =
      visit_port_lem (Undriven p) q c (λ _. h)
        (and-false (is_inout p.direction) _ _
          (driven-retarget p.name q.name (fresh_name c (q.name ++ codes "_drv")) c.assigns f) h)

  visit_port-Undriven :
      (p : Port T V) (c : Contents T V)
      → bytes_eq (fresh_name c (p.name ++ codes "_drv")) p.name ≡ false
      → Undriven p (visit_port T V fresh_name type_default_value p c)
  unfolding add_driver
  visit_port-Undriven p c f =
      visit_port_lem (Undriven p) p c (λ h. h)
        (and-false_right (is_inout p.direction)
          (driven-retarget_own p.name (fresh_name c (p.name ++ codes "_drv")) c.assigns f))

  visit_ports-keeps :
      (p : Port T V) (ports : List (Port T V)) (c : Contents T V)
      → ((d : Contents T V) (base : Bytes) → bytes_eq (fresh_name d base) p.name ≡ false)
      → Undriven p c
      → Undriven p (visit_ports T V fresh_name type_default_value ports c)
  unfolding visit_ports
  visit_ports-keeps p [] c f h = h
  visit_ports-keeps p (q ∷ ports) c f h =
      visit_ports-keeps p ports (visit_port T V fresh_name type_default_value q c) f
        (visit_port-keeps q p c (f c (q.name ++ codes "_drv")) h)

  visit_ports-Undriven :
      (ports : List (Port T V)) (c : Contents T V)
      → IsFresh ports
      → All (λ p. Undriven p (visit_ports T V fresh_name type_default_value ports c)) ports
  unfolding visit_ports
  visit_ports-Undriven [] c f = tt
  visit_ports-Undriven (p ∷ ports) c f =
      let next = visit_port T V fresh_name type_default_value p c in
      (
        visit_ports-keeps p ports next (λ d base. (f d base).0)
            (visit_port-Undriven p c (f c (p.name ++ codes "_drv")).0),
        visit_ports-Undriven ports next (λ d base. (f d base).1),
      )

  -- What each round keeps: the names read and, if the continuous assignments join the targets and
  -- the sources, the nets driven.
  module _ {W : Type 0} (net : Bytes → W) where
    abbrev Kept : Contents T V → Contents T V → Type 0
    Kept before after =
        Joined net before.global_action
        × (map (λ a. a.reads) after.assigns ≡ map (λ a. a.reads) before.assigns)
        × (nets net after.assigns ≡ nets net before.assigns)

    visit_port-Kept :
        (p : Port T V) (c : Contents T V)
        → Joined net (visit_port T V fresh_name type_default_value p c).global_action
        → Kept c (visit_port T V fresh_name type_default_value p c)
    unfolding add_driver
    visit_port-Kept p c =
        visit_port_lem (λ d. Joined net d.global_action → Kept c d) p c (λ _ h. (h, refl, refl))
          (λ h.
            let driver = fresh_name c (p.name ++ codes "_drv") in
            let (old, joined) = Joined-add_action net c.global_action (p.name, driver) h in
            (
              old,
              reads-retarget p.name driver c.assigns,
              nets-retarget net p.name driver c.assigns joined,
            ))

    visit_ports-Kept :
        (ports : List (Port T V)) (c : Contents T V)
        → Joined net (visit_ports T V fresh_name type_default_value ports c).global_action
        → Kept c (visit_ports T V fresh_name type_default_value ports c)
    unfolding visit_ports
    visit_ports-Kept [] c h = (h, refl, refl)
    visit_ports-Kept (p ∷ ports) c h =
        let (later, same_reads, same_nets) =
          visit_ports-Kept ports (visit_port T V fresh_name type_default_value p c) h in
        let (now, reads, driven_nets) = visit_port-Kept p c later in
        (now, same_reads ∙ reads, same_nets ∙ driven_nets)

  -- If the port is an inout, no process assigns it.
  abbrev pub IsDriverless : Port T V → Contents T V → Type 0
  IsDriverless p c = p.direction ≡ dir_inout → IsUnassigned p.name c.assigns

  Undriven-IsDriverless : (p : Port T V) (c : Contents T V) → Undriven p c → IsDriverless p c
  Undriven-IsDriverless p c h inout =
      driven-IsUnassigned p.name c.assigns
        (and-second (is_inout p.direction) (driven p.name c.assigns) (ap is_inout inout) h)

  All-IsDriverless :
      (ports : List (Port T V)) (c : Contents T V)
      → All (λ p. Undriven p c) ports
      → All (λ p. IsDriverless p c) ports
  All-IsDriverless [] c h = tt
  All-IsDriverless (p ∷ ports) c (h, hs) =
      (Undriven-IsDriverless p c h, All-IsDriverless ports c hs)

  -- If a name that the table of names calls fresh is that of no port of the view, then a view with
  -- an entity and contents keeps contents in which no process assigns an inout port; what each
  -- assignment reads is as before; and if the target and the source of each continuous assignment
  -- stand for one net, each assignment drives the net that it drove before.
  pub visit_view-Undriven :
      {W : Type 0} (net : Bytes → W) (ports : List (Port T V)) (c : Contents T V)
      → IsFresh ports
      → Joined net (visit_ports T V fresh_name type_default_value ports c).global_action
      → let after = visit_ports T V fresh_name type_default_value ports c in
        (visit_view T V fresh_name type_default_value
            (record { entity = some ports; contents = some c })
          ≡ record { entity = some ports; contents = some after })
        × All (λ p. IsDriverless p after) ports
        × (map (λ a. a.reads) after.assigns ≡ map (λ a. a.reads) c.assigns)
        × (nets net after.assigns ≡ nets net c.assigns)
  unfolding visit_view
  visit_view-Undriven net ports c f h =
      let (old, same_reads, same_nets) = visit_ports-Kept net ports c h in
      (
        refl,
        All-IsDriverless ports (visit_ports T V fresh_name type_default_value ports c)
            (visit_ports-Undriven ports c f),
        same_reads,
        same_nets,
      )
