-- ===== src/Examples/Texts.antt =====
-- Lines of hexadecimal and octal digits.
use hif_backend.Prelude.{◌≡◌, refl, false, Bytes, codes}
use hif_backend.Support.LogicTextio.{
  hread, oread, read_vector, read_text, trim, trim_left, trim_right, before_blank,
}
use hif_backend.Support.LogicTextio.Digits.{IsRead, hread-IsRead, oread-IsRead}

abbrev same : Bytes → Bytes
same s = s

hread-IsRead_example :
    IsRead 4 same (codes "  2aF rest") (codes "old") (hread same (codes "  2aF rest") (codes "old"))
hread-IsRead_example =
    hread-IsRead same (codes "  2aF rest") (codes "old")
      (refl, (refl, (refl, (refl, (refl, (refl, (refl, (refl, (refl, (refl, tt))))))))))

oread-IsRead_example :
    IsRead 3 same (codes "\t718") (codes "old") (oread same (codes "\t718") (codes "old"))
oread-IsRead_example =
    oread-IsRead same (codes "\t718") (codes "old") (refl, (refl, (refl, (refl, tt))))

-- A line of blanks has no word.
blank_line : (hread same (codes " \t ") (codes "old")).1 ≡ false
unfolding hread read_vector read_text trim trim_left trim_right before_blank
blank_line = refl
