-- ===== src/Hex/RoundTrip.antt =====
-- The bytes of a dump are read back from it, in order.
use Prim.Native.Nat.{bit_and}
use librfn.Common.{
  ℕ, zero, suc, ◌^◌, ◌≡◌, ◌≤◌, ◌<◌, refl, sym, ap, ◌∙◌, subst, Option, none, some, List, [], ◌∷◌,
  ◌++◌, arith, length,
}
use librfn.Common.Int.{pos, signed32}
use librfn.Common.Word.{u32, ◌>>>◌}
use librfn.Hex.{newline, hexchar, dump_row, dump_rows, hex_dump_to_file, hex_get_byte}
use librfn.Hex.Reading.{text, bytes_of, AllBytes, hex_get_byte-text, read_all, read_all-text}

abbrev pub Bytes : List ℕ → Type 0
Bytes [] = Unit
Bytes (b ∷ bs) = (b < 2 ^ 8) × Bytes bs

-- Output that is a text of the bytes `bs` before `rest`.
abbrev Row : List ℕ → List ℕ → List ℕ → Type 0
Row out bs rest =
    (r : List (Option ℕ)) × (out ≡ text r) × (bs ≡ bytes_of r ++ rest) × AllBytes r × Bytes rest

dump_row-Row : (i : ℕ) (bs : List ℕ) → Bytes bs → let (out, rest) = dump_row i bs in Row out bs rest
unfolding dump_row
dump_row-Row zero bs b = ([], refl, refl, tt, b)
dump_row-Row (suc i) [] b = ([], refl, refl, tt, tt)
dump_row-Row (suc i) (x ∷ bs) (small, b) =
    let (r, out, split, all, rest) = dump_row-Row i bs b in
    (
      some x ∷ r,
      ap (λ cs. hexchar (x >>> 4) ∷ hexchar (bit_and x 0xf) ∷ cs) out,
      ap (λ cs. x ∷ cs) split,
      (small, all),
      rest,
    )

text-append : (r s : List (Option ℕ)) → text (r ++ (none ∷ s)) ≡ text r ++ (newline ∷ text s)
text-append [] s = refl
text-append (none ∷ r) s = ap (λ cs. newline ∷ cs) (text-append r s)
text-append (some b ∷ r) s =
    ap (λ cs. hexchar (b >>> 4) ∷ hexchar (bit_and b 0xf) ∷ cs) (text-append r s)

bytes_of-append : (r s : List (Option ℕ)) → bytes_of (r ++ (none ∷ s)) ≡ bytes_of r ++ bytes_of s
bytes_of-append [] s = refl
bytes_of-append (none ∷ r) s = bytes_of-append r s
bytes_of-append (some b ∷ r) s = ap (λ bs. b ∷ bs) (bytes_of-append r s)

AllBytes-append : (r s : List (Option ℕ)) → AllBytes r → AllBytes s → AllBytes (r ++ (none ∷ s))
AllBytes-append [] s a a' = a'
AllBytes-append (none ∷ r) s a a' = AllBytes-append r s a a'
AllBytes-append (some b ∷ r) s (small, a) a' = (small, AllBytes-append r s a a')

length-dump_row : (i : ℕ) (bs : List ℕ) → length (dump_row i bs).1 ≤ length bs
unfolding dump_row
length-dump_row zero bs = omega arith
length-dump_row (suc i) [] = omega arith
length-dump_row (suc i) (b ∷ bs) = omega (arith, length-dump_row i bs)

first_row : (b : ℕ) (bs : List ℕ) → length (dump_row 16 (b ∷ bs)).1 ≤ length bs
unfolding dump_row
first_row b bs = length-dump_row 15 bs

dump_rows-text :
    (fuel : ℕ) (bs : List ℕ)
    → Bytes bs
    → length bs ≤ fuel
    → (r : List (Option ℕ)) × (dump_rows fuel bs ≡ text r) × (bs ≡ bytes_of r) × AllBytes r
unfolding dump_rows
dump_rows-text zero [] b h = ([], refl, refl, tt)
dump_rows-text zero (x ∷ bs) b h = absurd (omega arith)
dump_rows-text (suc fuel) [] b h = ([], refl, refl, tt)
dump_rows-text (suc fuel) (x ∷ bs) b h =
    let (r, out, split, all, some_bytes) = dump_row-Row 16 (x ∷ bs) b in
    let (row, rest) = dump_row 16 (x ∷ bs) in
    let (s, out', split', all') =
      dump_rows-text fuel rest some_bytes (omega (arith, h, first_row x bs)) in
    (
      r ++ (none ∷ s),
      ap (λ cs. cs ++ (newline ∷ dump_rows fuel rest)) out
          ∙ (ap (λ cs. text r ++ (newline ∷ cs)) out' ∙ sym (text-append r s)),
      split ∙ (ap (λ cs. bytes_of r ++ cs) split' ∙ sym (bytes_of-append r s)),
      AllBytes-append r s all all',
    )

int_length : (n : ℕ) → n < 2 ^ 31 → signed32 (u32 n) ≡ pos n
int_length n h = ground (arith, h)

-- The loop of `hex_get_byte` over what `hex_dump_to_file` wrote for less than 2^31 bytes gets the bytes
-- back, in order, and the result of the dump is their number.
pub read_all-hex_dump :
    (bs : List ℕ) (p : Option (List ℕ)) (n : ℕ)
    → Bytes bs
    → length bs ≤ n
    → length bs < 2 ^ 31
    → let (out, count) = hex_dump_to_file bs in
      (read_all n (hex_get_byte (some out) p) ≡ bs) × (count ≡ pos (length bs))
unfolding hex_dump_to_file
read_all-hex_dump bs p n b h few =
    let (r, out, split, all) = dump_rows-text (length bs) bs b (omega arith) in
    (
      ap (λ s. read_all n (hex_get_byte (some s) p)) out
          ∙ (ap (read_all n) (hex_get_byte-text r p all)
              ∙ (read_all-text n r all (subst (λ (xs : List ℕ). length xs ≤ n) split h)
                  ∙ sym split)),
      int_length (length bs) few,
    )
