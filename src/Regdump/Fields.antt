-- ===== src/Regdump/Fields.antt =====
-- A dump is the title and a line for each field, in the order of the table.
use librfn.Common.{
  ℕ, zero, suc, ◌+◌, ◌≡◌, ◌<◌, refl, sym, ap, ◌∙◌, none, some, List, [], ◌∷◌, ◌++◌, append_assoc,
  append-nil, arith, length, length-append, ne→==, ◌*◌, ◌/◌, ◌%◌, ◌^◌,
}
use Prim.Native.Nat.{bit_and}
use native.Mathlib.Nat.{pow-suc, mul-div_cancel, div-div-eq-div-mul}
use librfn.Common.Bits.{and-lowest}
use librfn.Bitops.Trailing.{scaled, scaled_bounds, pow_pos, ctz_lem}
use librfn.Regdump.{
  RegdumpDesc, entry, title_line, field_line, field_value, entry_line, fregdump_single,
  fregdump_from, fregdump,
}

abbrev desc_of : List ℕ × ℕ → RegdumpDesc
desc_of (name, mask) = record { name = some name; mask = mask }

-- The entries, and the one without a name that ends the table.
abbrev pub table_of : List (List ℕ × ℕ) → List RegdumpDesc
table_of [] = record { name = none; mask = 0 } ∷ []
table_of (d ∷ ds) = desc_of d ∷ table_of ds

-- A field: its name, the number of its lowest bit, and its mask with that bit at 0.
abbrev pub Field : Type 0
Field = List ℕ × ℕ × ℕ

-- The masks as they stand in the table.
abbrev pub masks : List Field → List (List ℕ × ℕ)
masks [] = []
masks ((name, s, bits) ∷ ds) = (name, scaled bits s) ∷ masks ds

-- The lowest bit is in the mask, and the mask has 32 bits.
abbrev pub Fits : List Field → Type 0
Fits [] = Unit
Fits ((name, s, bits) ∷ ds) = (bits % 2 ≡ 1) × (scaled bits s < 2 ^ 32) × Fits ds

abbrev pub field_lines : ℕ → List Field → List ℕ
field_lines reg [] = []
field_lines reg ((name, s, bits) ∷ ds) =
    field_line name (bit_and (reg / 2 ^ s) bits) ++ field_lines reg ds

and_even : (reg x : ℕ) → bit_and reg (x * 2) ≡ bit_and (reg / 2) x * 2
and_even reg x =
    let half : (x * 2) / 2 ≡ x = omega arith in
    omega (arith, and-lowest reg (x * 2), ap (bit_and (reg / 2)) half)

and-scaled : (reg m s : ℕ) → bit_and reg (scaled m s) ≡ bit_and (reg / 2 ^ s) m * 2 ^ s
and-scaled reg m zero =
    let whole : reg / 1 ≡ reg = omega arith in
    let once : bit_and reg m ≡ bit_and reg m * 1 = omega arith in
    once ∙ ap (λ r. bit_and r m * 1) (sym whole)
and-scaled reg m (suc s) =
    let high : reg / 2 / 2 ^ s ≡ reg / 2 ^ suc s =
      div-div-eq-div-mul reg 2 (2 ^ s) ∙ ap (λ n. reg / n) (omega (arith, pow-suc 2 s)) in
    and_even reg (scaled m s)
    ∙ ap (λ n. n * 2) (and-scaled (reg / 2) m s ∙ ap (λ r. bit_and r m * 2 ^ s) high)
    ∙ omega (arith, pow-suc 2 s, ap (λ (t : ℕ). bit_and (reg / 2 ^ suc s) m * t) (pow-suc 2 s))

field_value-scaled :
    (reg m s : ℕ)
    → m % 2 ≡ 1
    → scaled m s < 2 ^ 32
    → field_value reg (scaled m s) ≡ bit_and (reg / 2 ^ s) m
field_value-scaled reg m s odd small =
    ap (λ n. bit_and reg (scaled m s) / 2 ^ n) (ctz_lem m s odd small)
    ∙ ap (λ n. n / 2 ^ s) (and-scaled reg m s)
    ∙ mul-div_cancel (bit_and (reg / 2 ^ s) m) (pow_pos s)

entry_line-field :
    (i reg : ℕ) (name : List ℕ) (s m : ℕ)
    → m % 2 ≡ 1
    → scaled m s < 2 ^ 32
    → entry_line (i + 1) reg name (scaled m s) ≡ some (field_line name (bit_and (reg / 2 ^ s) m))
entry_line-field i reg name s m odd small =
    let pos : 0 < scaled m s = omega (arith, scaled_bounds m s (omega (arith, odd)), pow_pos s) in
    rw (ne→== (i + 1) 0 (omega arith), ne→== (scaled m s) 0 (omega (arith, pos)))
      (ap (λ v. some (field_line name v)) (field_value-scaled reg m s odd small))

entry-append :
    (ds rest : List RegdumpDesc) (d : RegdumpDesc) (i : ℕ)
    → i ≡ length ds
    → entry (ds ++ (d ∷ rest)) i ≡ some d
entry-append [] rest d zero h = refl
entry-append [] rest d (suc i) h = absurd (omega (arith, h))
entry-append (x ∷ ds) rest d zero h = absurd (omega (arith, h))
entry-append (x ∷ ds) rest d (suc i) h = entry-append ds rest d i (omega (arith, h))

-- A call at the last entry goes back to the first, and at any other on to the next.
single_last :
    (f : List ℕ) (reg : ℕ) (desc : List RegdumpDesc) (name : List ℕ) (mask i : ℕ) (line : List ℕ)
    → entry_line i reg name mask ≡ some line
    → entry desc i ≡ some (desc_of (name, mask))
    → entry desc (i + 1) ≡ some (record { name = none; mask = 0 })
    → fregdump_single f reg desc i ≡ some (f ++ line, 0)
unfolding fregdump_single
single_last f reg desc name mask i line printed here next =
    rw (fregdump_single, here, printed, next) refl

single_other :
    (f : List ℕ) (reg : ℕ) (desc : List RegdumpDesc) (name : List ℕ) (mask i : ℕ) (line : List ℕ)
    (d : List ℕ × ℕ)
    → entry_line i reg name mask ≡ some line
    → entry desc i ≡ some (desc_of (name, mask))
    → entry desc (i + 1) ≡ some (desc_of d)
    → fregdump_single f reg desc i ≡ some (f ++ line, i + 1)
unfolding fregdump_single
single_other f reg desc name mask i line (n, m) printed here next =
    rw (fregdump_single, here, printed, next) refl

dump_end :
    (reg : ℕ) (desc : List RegdumpDesc) (rounds i : ℕ) (f f' : List ℕ)
    → fregdump_single f reg desc i ≡ some (f', 0)
    → fregdump_from (suc rounds) f reg desc i ≡ some f'
unfolding fregdump_from
dump_end reg desc rounds i f f' single = rw (fregdump_from, single) refl

dump_more :
    (reg : ℕ) (desc : List RegdumpDesc) (rounds i : ℕ) (f f' : List ℕ)
    → fregdump_single f reg desc i ≡ some (f', i + 1)
    → fregdump_from (suc rounds) f reg desc i ≡ fregdump_from rounds f' reg desc (i + 1)
unfolding fregdump_from
dump_more reg desc rounds i f f' single =
    rw (fregdump_from, single, ne→== (i + 1) 0 (omega arith)) refl

dump-rest :
    (reg : ℕ) (before : List RegdumpDesc) (name : List ℕ) (mask : ℕ) (ds : List Field)
    (rounds i : ℕ) (f line : List ℕ)
    → i ≡ length before
    → length ds < rounds
    → entry_line i reg name mask ≡ some line
    → Fits ds
    → fregdump_from rounds f reg (before ++ table_of ((name, mask) ∷ masks ds)) i
      ≡ some (f ++ (line ++ field_lines reg ds))
dump-rest reg before name mask ds zero i f line h enough printed fits =
    absurd (omega (arith, enough))
dump-rest reg before name mask [] (suc rounds) i f line h enough printed fits =
    let desc = before ++ table_of ((name, mask) ∷ []) in
    let before' = before ++ (desc_of (name, mask) ∷ []) in
    let longer : length before' ≡ length before + 1 =
      length-append before (desc_of (name, mask) ∷ []) in
    let unnamed : RegdumpDesc = record { name = none; mask = 0 } in
    let here = entry-append before (table_of []) (desc_of (name, mask)) i h in
    let last : entry desc (i + 1) ≡ some unnamed =
      ap (λ l. entry l (i + 1))
        (sym (append_assoc before (desc_of (name, mask) ∷ []) (table_of [])))
      ∙ entry-append before' [] unnamed (i + 1) (omega (arith, h, longer)) in
    dump_end reg desc rounds i f (f ++ line)
      (single_last f reg desc name mask i line printed here last)
    ∙ ap (λ l. some (f ++ l)) (sym (append-nil line))
dump-rest reg before name mask ((n, s, bits) ∷ ds) (suc rounds) i f line h enough printed
      (odd, small, fits) =
    let m = scaled bits s in
    let before' = before ++ (desc_of (name, mask) ∷ []) in
    let longer : length before' ≡ length before + 1 =
      length-append before (desc_of (name, mask) ∷ []) in
    let desc = before ++ table_of ((name, mask) ∷ (n, m) ∷ masks ds) in
    let split : before' ++ table_of ((n, m) ∷ masks ds) ≡ desc =
      append_assoc before (desc_of (name, mask) ∷ []) (table_of ((n, m) ∷ masks ds)) in
    let here = entry-append before (table_of ((n, m) ∷ masks ds)) (desc_of (name, mask)) i h in
    let next : entry desc (i + 1) ≡ some (desc_of (n, m)) =
      ap (λ l. entry l (i + 1)) (sym split)
      ∙ entry-append before' (table_of (masks ds)) (desc_of (n, m)) (i + 1)
          (omega (arith, h, longer)) in
    let line' = field_line n (bit_and (reg / 2 ^ s) bits) in
    let rest =
      dump-rest reg before' n m ds rounds (i + 1) (f ++ line) line' (omega (arith, h, longer))
        (omega (arith, enough)) (entry_line-field i reg n s bits odd small) fits in
    dump_more reg desc rounds i f (f ++ line)
      (single_other f reg desc name mask i line (n, m) printed here next)
    ∙ ap (λ l. fregdump_from rounds (f ++ line) reg l (i + 1)) (sym split)
    ∙ rest
    ∙ ap (λ l. some l) (append_assoc f line (line' ++ field_lines reg ds))

-- `fregdump` of a table whose first entry names the register and whose fields have masks of 32 bits that are
-- not zero, with as many calls as the table has names, ends, and prints the name of the register and then
-- for each field, in the order of the table, its name and the bits of the register above the field's
-- lowest, as far as the mask reaches.
pub fregdump_lem :
    (f : List ℕ) (reg : ℕ) (name : List ℕ) (mask : ℕ) (fields : List Field)
    → Fits fields
    → fregdump (suc (length fields)) f reg (table_of ((name, mask) ∷ masks fields))
      ≡ some (f ++ (title_line name ++ field_lines reg fields))
unfolding fregdump
fregdump_lem f reg name mask fields fits =
    dump-rest reg [] name mask fields (suc (length fields)) 0 f (title_line name) refl (omega arith)
      refl fits
