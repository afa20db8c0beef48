-- ===== src/Hex/Examples.antt =====
-- A dump is read back, and other strings are read to their end.
use librfn.Common.{ℕ, ◌≡◌, refl, false, none, some, List, [], ◌∷◌, arith}
use librfn.Common.Int.{pos}
use librfn.Hex.{
  byte, hex_dump_to_file, hex_get_byte, next_line, get_line, skip_space, strchr, digits, nibble,
}
use librfn.Hex.Lines.{is_stuck, hex_get_byte-ends}
use librfn.Hex.Reading.{read_all}
use librfn.Hex.RoundTrip.{read_all-hex_dump}

-- "12: 0xAB", whose address is skipped.
abbrev a_line : List ℕ
a_line = b'1' ∷ b'2' ∷ b':' ∷ b' ' ∷ b'0' ∷ b'x' ∷ b'A' ∷ b'B' ∷ []

reads_a_line : hex_get_byte (some a_line) none ≡ byte 171 []
unfolding hex_get_byte next_line get_line skip_space strchr digits nibble
reads_a_line = refl

hex_get_byte-ends_example : is_stuck (hex_get_byte (some a_line) none) ≡ false
hex_get_byte-ends_example = hex_get_byte-ends (some a_line) none

read_all-hex_dump_example :
    let (out, count) = hex_dump_to_file (222 ∷ 173 ∷ 7 ∷ []) in
    (read_all 3 (hex_get_byte (some out) none) ≡ 222 ∷ 173 ∷ 7 ∷ []) × (count ≡ pos 3)
read_all-hex_dump_example =
    read_all-hex_dump (222 ∷ 173 ∷ 7 ∷ []) none 3 (omega arith, (omega arith, (omega arith, tt)))
      (omega arith) (omega arith)
