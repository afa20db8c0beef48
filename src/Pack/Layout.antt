-- ===== src/Pack/Layout.antt =====
-- The bytes of a number, and the bytes in a buffer.
use native.Mathlib.Nat.{mod-eq_of_lt}
use Prim.Native.Nat.{bit_and, bit_or}
use librfn.Common.{
  ℕ, zero, suc, ◌+◌, ◌*◌, ◌/◌, ◌%◌, ◌^◌, ◌≤◌, ◌<◌, ◌≡◌, refl, ap, ◌∙◌, List, [], ◌∷◌, arith, length,
  get_or, set, length-set, get_or-set_self, get_or-set_ne,
}
use librfn.Common.Bits.{shifted_in, masked}
use librfn.Pack.{write, read, le16, le32, of_le16, of_le32}

pub length-write : (bs bytes : List ℕ) (at : ℕ) → length (write bytes at bs) ≡ length bytes
length-write [] bytes at = refl
length-write (b ∷ bs) bytes at = length-write bs (set bytes at b) (at + 1) ∙ length-set bytes at b

-- A write changes no byte before its place.
pub write_before :
    (bs bytes : List ℕ) (at j : ℕ) → j < at → get_or (write bytes at bs) j 0 ≡ get_or bytes j 0
write_before [] bytes at j h = refl
write_before (b ∷ bs) bytes at j h =
    write_before bs (set bytes at b) (at + 1) j (omega arith)
    ∙ get_or-set_ne bytes at j b 0 (λ e. absurd (omega arith))

-- Nor one behind its end.
pub write_behind :
    (bs bytes : List ℕ) (at j : ℕ)
    → at + length bs ≤ j
    → get_or (write bytes at bs) j 0 ≡ get_or bytes j 0
write_behind [] bytes at j h = refl
write_behind (b ∷ bs) bytes at j h =
    write_behind bs (set bytes at b) (at + 1) j (omega arith)
    ∙ get_or-set_ne bytes at j b 0 (λ e. absurd (omega arith))

-- What is read depends on the bytes that are read.
pub read_same :
    (f g : List ℕ) (at sz : ℕ)
    → ((j : ℕ) → at ≤ j → j < at + sz → get_or f j 0 ≡ get_or g j 0)
    → read f at sz ≡ read g at sz
read_same f g at zero h = refl
read_same f g at (suc sz) h =
    rw
      (
        h at (omega arith) (omega arith),
        read_same f g (at + 1) sz (λ j p q. h j (omega arith) (omega arith)),
      )
      refl

-- What was written can be read.
pub read-write :
    (bs bytes : List ℕ) (at : ℕ)
    → at + length bs ≤ length bytes
    → read (write bytes at bs) at (length bs) ≡ bs
read-write [] bytes at h = refl
read-write (b ∷ bs) bytes at h =
    rw
      (
        write_before bs (set bytes at b) (at + 1) at (omega arith),
        get_or-set_self bytes at b 0 (omega arith),
        read-write bs (set bytes at b) (at + 1) (omega (arith, length-set bytes at b)),
      )
      refl

-- The bytes of a number determine it.
pub of_le16-le16 : (x : ℕ) → x < 2 ^ 16 → of_le16 (le16 x) ≡ x
of_le16-le16 x h = omega (
  arith,
  masked 8 x,
  masked 8 (x / 2 ^ 8),
  shifted_in 8 (bit_and x 0xff) (bit_and (x / 2 ^ 8) 0xff) (omega (arith, masked 8 x)),
)

pub of_le32-le32 : (x : ℕ) → x < 2 ^ 32 → of_le32 (le32 x) ≡ x
of_le32-le32 x h = ap (λ n. n % 2 ^ 32) joined ∙ mod-eq_of_lt h
  where
    b0 : bit_and x 0xff ≡ x % 256
    b0 = masked 8 x

    b1 : bit_and (x / 2 ^ 8) 0xff ≡ x / 2 ^ 8 % 256
    b1 = masked 8 (x / 2 ^ 8)

    b2 : bit_and (x / 2 ^ 16) 0xff ≡ x / 2 ^ 16 % 256
    b2 = masked 8 (x / 2 ^ 16)

    b3 : bit_and (x / 2 ^ 24) 0xff ≡ x / 2 ^ 24 % 256
    b3 = masked 8 (x / 2 ^ 24)

    low : bit_or (bit_and x 0xff) (bit_and (x / 2 ^ 8) 0xff * 2 ^ 8) ≡ x % 2 ^ 16
    low = rw (b0, b1) (shifted_in 8 (x % 256) (x / 2 ^ 8 % 256) (omega arith) ∙ omega arith)

    middle :
        bit_or
          (bit_or (bit_and x 0xff) (bit_and (x / 2 ^ 8) 0xff * 2 ^ 8))
          (bit_and (x / 2 ^ 16) 0xff * 2 ^ 16)
        ≡ x % 2 ^ 24
    middle =
        rw (low, b2) (shifted_in 16 (x % 2 ^ 16) (x / 2 ^ 16 % 256) (omega arith) ∙ omega arith)

    joined :
        bit_or
          (bit_or
            (bit_or (bit_and x 0xff) (bit_and (x / 2 ^ 8) 0xff * 2 ^ 8))
            (bit_and (x / 2 ^ 16) 0xff * 2 ^ 16))
          (bit_and (x / 2 ^ 24) 0xff * 2 ^ 24)
        ≡ x
    joined =
        rw (middle, b3) (shifted_in 24 (x % 2 ^ 24) (x / 2 ^ 24 % 256) (omega arith) ∙ omega arith)
