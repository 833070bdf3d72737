-- ===== src/Examples/Passes.antt =====
-- Views that the passes over ports rewrite, and the directives and drivers of views.
use hif_backend.Prelude.{
  inl, inr, ℕ, ◌≡◌, refl, Bool, true, false, [], ◌∷◌, ◌++◌, map, none, some, Bytes, codes, leb, All,
}
use hif_backend.Hif.{dir_out, dir_inout}
use hif_backend.Hif2verilog.Timescale
use hif_backend.Hif2verilog.Timescale.{
  TimeUnit, time_us, time_ms, time_min, time_hr, TimeValue, Timescale, print_timescale_directive,
  resolve_timescale, time_unit_to_verilog,
}
use hif_backend.Hif2verilog.Timescale.Directive.{position, Divides, resolve_timescale-Divides}
use hif_backend.Hif2verilog.Timescale.Delays.{IsDelay}
use hif_backend.Hif2vhdl.ReadOutPorts
use hif_backend.Hif2vhdl.ReadOutPorts.{Reference}
use hif_backend.Hif2verilog.InoutPorts
use hif_backend.Hif2verilog.InoutPorts.{Assign}
use hif_backend.Hif2verilog.InoutPorts.Targets.{nets}
use hif_backend.Hif2verilog.InoutPorts.Drivers.{IsDriverless, visit_view-Undriven}
use hif_backend.Hif2verilog.ContinuousDrivers
use hif_backend.Hif2verilog.ContinuousDrivers.{
  Contents, collect_continuously_driven_declarations, driven_by_others, assigned_anywhere,
}
use hif_backend.Hif2verilog.ContinuousDrivers.Ports.{SortedBy, collect-Sorted}
use hif_backend.Hif2verilog.ContinuousDrivers.Others.{driven_elsewhere, assigned_in}

-- Doubles that are whole numbers.
abbrev at_least : ℕ → ℕ → Bool
at_least x n = leb n x

abbrev two_us : TimeValue ℕ
two_us = record { value = 2; unit = time_us }

abbrev one_ms : TimeValue ℕ
one_ms = record { value = 1; unit = time_ms }

-- A wait for 1 ms and an assignment after 2 us.
abbrev timed_view : Timescale.View ℕ
timed_view = record {
  declarations = [];
  assign_delays = none ∷ some (Timescale.time two_us) ∷ [];
  wait_times = some (Timescale.time one_ms) ∷ [];
  system = none;
}

resolve_timescale-Divides_example :
    let r = resolve_timescale ℕ at_least position timed_view in
    (r.valid ≡ true)
    × (r.unit_value ≡ 1)
    × ((t : TimeValue ℕ) × IsDelay ℕ at_least position timed_view t × (r.unit ≡ t.unit))
    × ((t : TimeValue ℕ) → IsDelay ℕ at_least position timed_view t → Divides r.unit t.unit)
unfolding Timescale.usable Timescale.recorded Timescale.find_time_constant
resolve_timescale-Divides_example =
    resolve_timescale-Divides ℕ at_least position (λ u v le. le) timed_view one_ms (inr (inl refl))
      refl

abbrev five_min : TimeValue ℕ
five_min = record { value = 5; unit = time_min }

-- One wait for five minutes.
abbrev slow_view : Timescale.View ℕ
slow_view = record {
  declarations = [];
  assign_delays = [];
  wait_times = some (Timescale.time five_min) ∷ [];
  system = none;
}

-- An output q that the architecture reads, with the value true in every state.
abbrev q_port : ReadOutPorts.Port ℕ Bool
q_port = record { name = codes "q"; direction = dir_out; type = 0; value = none }

abbrev reading_view : ReadOutPorts.View ℕ Bool
reading_view = record {
  is_standard = false;
  ports = q_port ∷ [];
  contents = record {
    declarations = [];
    references =
        record { name = codes "q"; in_left_hand_side = true; port_assign = none }
        ∷ record { name = codes "q"; in_left_hand_side = false; port_assign = none }
        ∷ [];
    global_action = none;
  };
}

abbrev new_name : ReadOutPorts.Contents ℕ Bool → Bytes → Bytes
new_name co base = codes "new_" ++ base

-- An inout b that a process assigns and reads.
abbrev b_port : InoutPorts.Port ℕ ℕ
b_port = record { name = codes "b"; direction = dir_inout; type = 0 }

abbrev two_way : InoutPorts.Contents ℕ ℕ
two_way = record {
  declarations = [];
  assigns =
      record { target = some (codes "b"); reads = codes "b" ∷ []; in_state_table = true } ∷ [];
  global_action = none;
}

abbrev driver_name : InoutPorts.Contents ℕ ℕ → Bytes → Bytes
driver_name contents base = codes "new_" ++ base

visit_view-Undriven_example :
    let after = InoutPorts.visit_ports ℕ ℕ driver_name (λ t. t) (b_port ∷ []) two_way in
    (InoutPorts.visit_view ℕ ℕ driver_name
        (λ t. t)
        (record { entity = some (b_port ∷ []); contents = some two_way })
      ≡ record { entity = some (b_port ∷ []); contents = some after })
    × All (λ p. IsDriverless ℕ ℕ driver_name (λ t. t) p after) (b_port ∷ [])
    × (map (λ a. a.reads) after.assigns ≡ map (λ a. a.reads) two_way.assigns)
    × (nets (λ _. true) after.assigns ≡ nets (λ _. true) two_way.assigns)
unfolding InoutPorts.visit_ports InoutPorts.visit_port InoutPorts.collect_procedural_assigns
    InoutPorts.drives InoutPorts.add_driver InoutPorts.add_action
visit_view-Undriven_example =
    visit_view-Undriven ℕ ℕ driver_name (λ t. t) (λ _. true) (b_port ∷ []) two_way
      (λ c base. (refl, tt)) (refl, tt)

-- An output with a value that a process assigns, one that nothing assigns, and one that an instance
-- drives.
abbrev output : ℕ → ContinuousDrivers.Port Bytes
output d = record { declaration = d; direction = dir_out; value = some (codes "1'b0") }

abbrev three_outputs : Contents
three_outputs = record {
  global_action = none;
  instances =
      (record {
        formal = some dir_out;
        value = some (record { is_identifier = true; declaration = some 3 });
      }
        ∷ [])
      ∷ [];
  assigns = record { is_identifier = true; declaration = some 1 } ∷ [];
}

collect-Sorted_example :
    All
      (SortedBy Bytes
        (λ s. s)
        (driven_elsewhere three_outputs)
        (assigned_in three_outputs)
        (collect_continuously_driven_declarations Bytes
          (λ s. s)
          (record {
            contents = some three_outputs;
            entity = some (output 1 ∷ output 2 ∷ output 3 ∷ []);
          })))
      (output 1 ∷ output 2 ∷ output 3 ∷ [])
collect-Sorted_example =
    collect-Sorted Bytes (λ s. s) three_outputs (output 1 ∷ output 2 ∷ output 3 ∷ [])
      ((refl, (refl, tt)), ((refl, tt), (tt, tt)))
