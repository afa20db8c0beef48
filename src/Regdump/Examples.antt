-- ===== src/Regdump/Examples.antt =====
-- A register with two fields.
use librfn.Common.{◌≡◌, refl, some, List, [], ◌∷◌, ◌++◌, arith}
use librfn.Regdump.{fregdump, title_line, field_value}
use librfn.Regdump.Fields.{Field, masks, table_of, field_lines, fregdump_lem}

-- `CR` with `ON` in bit 0 and `DIV` in bits 4 to 7
abbrev two_fields : List Field
two_fields = (b'O' ∷ b'N' ∷ [], 0, 1) ∷ (b'D' ∷ b'I' ∷ b'V' ∷ [], 4, 15) ∷ []

field_test : field_value 0x1a5 0xf0 ≡ 10
unfolding librfn.Bitops.ctz
field_test = refl

fregdump_lem_example :
    fregdump 3 [] 0x1a5 (table_of ((b'C' ∷ b'R' ∷ [], 0) ∷ masks two_fields))
    ≡ some ([] ++ (title_line (b'C' ∷ b'R' ∷ []) ++ field_lines 0x1a5 two_fields))
fregdump_lem_example =
    fregdump_lem [] 0x1a5 (b'C' ∷ b'R' ∷ []) 0 two_fields
      (refl, omega arith, (refl, omega arith, tt))
