-- ===== src/Examples/Lines.antt =====
-- Values written to a line and read again, and lines of a file.
use hif_backend.Prelude.{◌∷◌, ◌++◌, inl, inr, ◌≡◌, refl, true, false, [], codes}
use hif_backend.Support.Textio.{
  hif_vhdl_left, drop, write_bool, write_bit, write_char, write_vector, read_bool, read_bit,
  read_char, read_vector, all_bits, readline, writeline,
}
use hif_backend.Support.Textio.Values.{read-write, readline-writeline}

read-write_example :
    let bool_line = write_bool [] true hif_vhdl_left 7 in
    let bit_line = write_bit [] true hif_vhdl_left 7 in
    let char_line = write_char [] b'q' hif_vhdl_left 7 in
    let vector_line = write_vector [] (codes "0110") hif_vhdl_left 7 in
    (read_bool bool_line false ≡ record { line = drop 4 bool_line; value = true; good = true })
    × (read_bit bit_line false ≡ record { line = drop 1 bit_line; value = true; good = true })
    × (read_char char_line 0 ≡ record { line = drop 1 char_line; value = b'q'; good = true })
    × (read_vector (λ s. s) vector_line []
        ≡ record { line = drop 4 vector_line; value = codes "0110"; good = true })
unfolding all_bits
read-write_example =
    read-write (λ s. s) 7 hif_vhdl_left false true b'q' 0 (codes "0110") [] (codes "0110") refl refl
      refl refl

-- The second line is cut at its NUL.
readline-writeline_example :
    readline (writeline (writeline [] (codes "one")).0 (codes "two" ++ 0 ∷ codes "x")).0
    ≡ (codes "onetwo", [])
readline-writeline_example =
    readline-writeline (codes "one") (codes "two" ++ 0 ∷ codes "x") (codes "one") (codes "two")
      ((refl, (refl, (refl, tt))), inl refl) ((refl, (refl, (refl, tt))), inr (codes "x", refl))
      refl refl
