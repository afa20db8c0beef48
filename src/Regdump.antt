-- ===== src/Regdump.antt =====
-- librfn/regdump.c and include/librfn/regdump.h: the fields of a register, one by one. A register has 32 bits; what
-- is printed is appended to a list of characters.
pub mod Fields
mod Examples
use Prim.Native.Nat.{bit_and}
use librfn.Common.{
  ℕ, zero, suc, ◌+◌, ◌-◌, ◌/◌, ◌^◌, Bool, true, false, Option, none, some, List, [], ◌∷◌, ◌++◌,
  length, replicate, ◌==◌, if◌then◌else◌,
}
use librfn.Bitops.{ctz}
use librfn.Bintree.Graph.{print_hex}

-- `regdump_desc_t`; `name` is `none` for NULL, which ends a table.
pub record RegdumpDesc : Type 0 where
  pub name : Option (List ℕ)
  pub mask : ℕ

-- `none` is behind the table.
abbrev pub entry : List RegdumpDesc → ℕ → Option RegdumpDesc
entry [] i = none
entry (d ∷ desc) zero = some d
entry (d ∷ desc) (suc i) = entry desc i

abbrev pub register : List ℕ
register = b'R' ∷ b'e' ∷ b'g' ∷ b'i' ∷ b's' ∷ b't' ∷ b'e' ∷ b'r' ∷ b':' ∷ b' ' ∷ []

abbrev pub title_line : List ℕ → List ℕ
title_line name = register ++ (name ++ (b'\n' ∷ []))

-- The format `"\t%-16s: 0x%x\n"`.
abbrev pub field_line : List ℕ → ℕ → List ℕ
field_line name value =
    b'\t'
    ∷ (name
        ++ (replicate (16 - length name) b' '
            ++ (b':' ∷ b' ' ∷ b'0' ∷ b'x' ∷ (print_hex 7 value ++ (b'\n' ∷ [])))))

abbrev pub field_value : ℕ → ℕ → ℕ
field_value reg mask = bit_and reg mask / 2 ^ ctz mask

-- The line of one entry, the first of which names the register. For a mask of zero the word is shifted by
-- its width, which has no meaning in C: `none`.
abbrev pub entry_line : ℕ → ℕ → List ℕ → ℕ → Option (List ℕ)
entry_line i reg name mask =
    if i == 0
    then some (title_line name)
    else if mask == 0
    then none
    else some (field_line name (field_value reg mask))

-- What has been printed, and `*state`, which is returned. `none` is also an access behind the table or
-- through NULL.
unfoldable pub fregdump_single : List ℕ → ℕ → List RegdumpDesc → ℕ → Option (List ℕ × ℕ)
fregdump_single f reg desc state = elim (entry desc state) [
  | none ↦ none
  | some d ↦ elim d.name [
    | none ↦ none
    | some name ↦ elim (entry_line state reg name d.mask) [
      | none ↦ none
      | some line ↦ elim (entry desc (state + 1)) [
        | none ↦ none
        | some next ↦ elim next.name [
          | none ↦ some (f ++ line, 0)
          | some _ ↦ some (f ++ line, state + 1)
        ]
      ]
    ]
  ]
]

-- The loop, with at most `rounds` calls and `none` also for one that goes on.
unfoldable pub fregdump_from : ℕ → List ℕ → ℕ → List RegdumpDesc → ℕ → Option (List ℕ)
unfolding fregdump_single
fregdump_from zero f reg desc state = none
fregdump_from (suc rounds) f reg desc state = elim (fregdump_single f reg desc state) [
  | none ↦ none
  | some (f', state') ↦
      let rest = fregdump_from rounds f' reg desc state' in if state' == 0 then some f' else rest
]

unfoldable pub fregdump : ℕ → List ℕ → ℕ → List RegdumpDesc → Option (List ℕ)
unfolding fregdump_from
fregdump rounds f reg desc = fregdump_from rounds f reg desc 0
