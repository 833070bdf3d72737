-- ===== src/Support/Readmem/Hex.antt =====
-- include/hif2scSupport/hif2scSupport/hif_verilog_standard.i.hpp: the overloads of `$readmemh`.
use hif_backend.Prelude.{ℕ, ◌%◌, ◌^◌, Bool, true, false, none, some, Bytes, codes, ◌==◌, ◌/◌}
use hif_backend.Prelude.Int.{ℤ}
use hif_backend.Support.Readmem.{Overload, as_signed}

-- The vectors of a width that SystemC and the HDT library make of a text.
module _ {V : Type 0} (vector_of : ℕ → Bytes → V) where
  unfoldable pub sc_bv : ℕ → Overload V
  sc_bv w = record {
    adjusted_stop = false;
    rereads = true;
    asserted = some (w / 4);
    base = codes "0x";
    decode = vector_of w;
  }

  unfoldable pub sc_lv : ℕ → Overload V
  sc_lv w = record {
    adjusted_stop = false;
    rereads = true;
    asserted = some (w / 4);
    base = codes "0x";
    decode = vector_of w;
  }

  unfoldable pub hl_bv : ℕ → Overload V
  hl_bv w = record {
    adjusted_stop = false;
    rereads = false;
    asserted = some (w / 4);
    base = codes "0x";
    decode = vector_of w;
  }

  unfoldable pub hl_lv : ℕ → Overload V
  hl_lv w = record {
    adjusted_stop = false;
    rereads = false;
    asserted = some (w / 4);
    base = codes "0x";
    decode = vector_of w;
  }

-- `to_uint64 w s` is the number that SystemC reads from the logic vector of width `w` of a text.
module _ (to_uint64 : ℕ → Bytes → ℕ) where
  number_cells : {A : Type 0} → (Bytes → A) → Overload A
  number_cells decode = record {
    adjusted_stop = false;
    rereads = true;
    asserted = none;
    base = codes "0x";
    decode = decode;
  }

  unfoldable pub uint8 : Overload ℕ
  unfolding number_cells
  uint8 = number_cells (λ s. to_uint64 8 s % 2 ^ 8)

  unfoldable pub uint16 : Overload ℕ
  unfolding number_cells
  uint16 = number_cells (λ s. to_uint64 16 s % 2 ^ 16)

  unfoldable pub uint32 : Overload ℕ
  unfolding number_cells
  uint32 = number_cells (λ s. to_uint64 32 s % 2 ^ 32)

  unfoldable pub uint64 : Overload ℕ
  unfolding number_cells
  uint64 = number_cells (λ s. to_uint64 64 s % 2 ^ 64)

  unfoldable pub int8 : Overload ℤ
  unfolding number_cells
  int8 = number_cells (λ s. as_signed 8 (to_uint64 8 s))

  unfoldable pub int16 : Overload ℤ
  unfolding number_cells
  int16 = number_cells (λ s. as_signed 16 (to_uint64 16 s))

  unfoldable pub int32_t : Overload ℤ
  unfolding number_cells
  int32_t = number_cells (λ s. as_signed 32 (to_uint64 32 s))

  unfoldable pub int64 : Overload ℤ
  unfolding number_cells
  int64 = number_cells (λ s. as_signed 64 (to_uint64 64 s))

  unfoldable pub bool : Overload Bool
  unfolding number_cells
  bool = number_cells (λ s. to_uint64 64 s == 1)
