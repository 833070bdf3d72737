-- ===== src/Hif2vhdl/ReadOutPorts/Reads.antt =====
-- src/hif2vhdl/PreRefine_readOutPorts.cpp: which references read an output port after the pass, and
-- what the references stand for.
use hif_backend.Prelude.{◌≡◌, false, ◌&&◌, List, Bytes, bytes_eq, All}
use hif_backend.Hif2vhdl.ReadOutPorts.{is_out, Port, Contents, references_of, need_fix}

module _ (T V : Type 0) (fresh_name : Contents T V → Bytes → Bytes) where
  -- The port is no output or no reference reads it.
  abbrev Unread : Port T V → Contents T V → Type 0
  Unread p co = (is_out p.direction && need_fix (references_of p.name co.references)) ≡ false

  -- A name that the table of names calls fresh is that of no port of these.
  abbrev pub IsFresh : List (Port T V) → Type 0
  IsFresh ports =
      (co : Contents T V) (base : Bytes)
      → All (λ p. bytes_eq (fresh_name co base) p.name ≡ false) ports
