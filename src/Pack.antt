-- ===== src/Pack.antt =====
-- librfn/pack.c and include/librfn/pack.h: a cursor over a buffer of bytes, with the packing and
-- unpacking of numbers. The three pointers are offsets from the start of the buffer, whose bytes
-- stand beside them; the cursor may pass the end, and the code counts on that.
pub mod Layout
pub mod Cursor
pub mod RoundTrip
pub mod Inside
pub mod Reads
mod Examples
use Prim.Native.Nat.{bit_and, bit_or}
use librfn.Common.{
  ℕ, zero, suc, ◌+◌, ◌-◌, ◌*◌, ◌/◌, ◌%◌, ◌^◌, Bool, true, false, Option, none, some, List, [], ◌∷◌,
  ◌++◌, leb, ltb, if◌then◌else◌, get_or, set, replicate, take, drop,
}
use librfn.Common.Int.{ℤ, pos, negsuc}
use librfn.Common.Word.{u8, u16, u32, ◌<<<◌, ◌>>>◌}

-- `rf_pack_t` over its memory. `basep` is offset 0.
pub record RfPack : Type 0 where
  pub bytes : List ℕ
  pub endp : ℕ
  pub p : ℕ

unfoldable pub init : List ℕ → ℕ → RfPack
init bytes sz = record { bytes = bytes; endp = sz; p = 0 }

unfoldable pub consumed : RfPack → ℕ
consumed pack = pack.p

-- Negative once the cursor is past the end.
unfoldable pub remaining : RfPack → ℤ
remaining pack =
    if leb pack.p pack.endp then pos (pack.endp - pack.p) else negsuc (pack.p - pack.endp - 1)

-- `p[0] = ...; p[1] = ...;` and so on, and `memcpy` into the buffer.
abbrev pub write : List ℕ → ℕ → List ℕ → List ℕ
write bytes at [] = bytes
write bytes at (b ∷ bs) = write (set bytes at b) (at + 1) bs

-- `memcpy` out of the buffer.
abbrev pub read : List ℕ → ℕ → ℕ → List ℕ
read bytes at zero = []
read bytes at (suc sz) = get_or bytes at 0 ∷ read bytes (at + 1) sz

-- The macro PACK: the cursor moves on by `sz` in any case, and the body, which stores some bytes, runs
-- if it has not passed the end.
unfoldable pub pack_macro : RfPack → ℕ → List ℕ → RfPack
pack_macro pack sz stored =
    let q = pack.p in
    let p = pack.p + sz in
    record pack { p = p; bytes = if leb p pack.endp then write pack.bytes q stored else pack.bytes }

-- A source of NULL is `none`, and stands for zeros.
unfoldable pub pack_bytes : RfPack → Option (List ℕ) → ℕ → RfPack
unfolding pack_macro
pack_bytes pack (some source) sz = pack_macro pack sz (take sz source)
pack_bytes pack none sz = pack_macro pack sz (replicate sz 0)

-- The bytes that a number is stored as.
abbrev pub le16 : ℕ → List ℕ
le16 x = bit_and x 0xff ∷ bit_and (x >>> 8) 0xff ∷ []

abbrev pub be16 : ℕ → List ℕ
be16 x = bit_and (x >>> 8) 0xff ∷ bit_and x 0xff ∷ []

abbrev pub le32 : ℕ → List ℕ
le32 x =
    bit_and x 0xff ∷ bit_and (x >>> 8) 0xff ∷ bit_and (x >>> 16) 0xff ∷ bit_and (x >>> 24) 0xff ∷ []

unfoldable pub pack_u16be : RfPack → ℕ → RfPack
unfolding pack_macro
pack_u16be pack x = pack_macro pack 2 (be16 x)

unfoldable pub pack_u16le : RfPack → ℕ → RfPack
unfolding pack_macro
pack_u16le pack x = pack_macro pack 2 (le16 x)

unfoldable pub pack_u32le : RfPack → ℕ → RfPack
unfolding pack_macro
pack_u32le pack x = pack_macro pack 4 (le32 x)

-- A signed number is shifted and masked as its two's complement is, on which the shift copies the
-- sign from above; the bytes kept are below it.
abbrev pub word : ℕ → ℤ → ℕ
word w (pos n) = n % 2 ^ w
word w (negsuc n) = 2 ^ w - 1 - n % 2 ^ w

unfoldable pub pack_s16le : RfPack → ℤ → RfPack
unfolding pack_macro
pack_s16le pack x = pack_macro pack 2 (le16 (word 16 x))

unfoldable pub pack_s32le : RfPack → ℤ → RfPack
unfolding pack_macro
pack_s32le pack x = pack_macro pack 4 (le32 (word 32 x))

-- The macro UNPACK: zero once the cursor has passed the end, else what the body computes from the
-- bytes at its old place.
unfoldable pub unpack_macro : RfPack → ℕ → (List ℕ → ℕ) → ℕ × RfPack
unpack_macro pack sz body =
    let q = pack.p in
    let p = pack.p + sz in
    (if ltb pack.endp p then 0 else body (read pack.bytes q sz), record pack { p = p })

-- What is copied to a target that is not NULL, all zeros past the end. With a target of NULL only
-- the cursor moves.
unfoldable pub unpack_bytes : RfPack → ℕ → List ℕ × RfPack
unpack_bytes pack sz =
    let q = pack.p in
    let p = pack.p + sz in
    (if leb p pack.endp then read pack.bytes q sz else replicate sz 0, record pack { p = p })

abbrev pub byte : List ℕ → ℕ → ℕ
byte bs i = get_or bs i 0

abbrev pub of_le16 : List ℕ → ℕ
of_le16 p = u16 (bit_or (byte p 0) (byte p 1 <<< 8))

-- The shift of the last byte by 24 overflows an `int` in C where that byte is 128 or more; here, as
-- the compilers do it, it gives the bits of an unsigned word.
abbrev pub of_le32 : List ℕ → ℕ
of_le32 p =
    u32 (bit_or (bit_or (bit_or (byte p 0) (byte p 1 <<< 8)) (byte p 2 <<< 16)) (byte p 3 <<< 24))

unfoldable pub unpack_u8 : RfPack → ℕ × RfPack
unfolding unpack_macro
unpack_u8 pack = unpack_macro pack 1 (λ p. byte p 0)

unfoldable pub unpack_u16le : RfPack → ℕ × RfPack
unfolding unpack_macro
unpack_u16le pack = unpack_macro pack 2 of_le16

unfoldable pub unpack_u32le : RfPack → ℕ × RfPack
unfolding unpack_macro
unpack_u32le pack = unpack_macro pack 4 of_le32

-- `char` and `int8_t` have the bits of the byte.
abbrev pub signed8 : ℕ → ℤ
signed8 b = if ltb b (2 ^ 7) then pos b else negsuc (2 ^ 8 - 1 - b)

unfoldable pub unpack_s8 : RfPack → ℤ × RfPack
unfolding unpack_macro
unpack_s8 pack = let (b, pack') = unpack_macro pack 1 (λ p. byte p 0) in (signed8 b, pack')
