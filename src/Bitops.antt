-- ===== src/Bitops.antt =====
-- librfn/bitops.c: counting bits. The results are `int`.
pub mod Bytes
pub mod Count
pub mod Trailing
mod Examples
use Prim.Native.Nat.{bit_and, bit_or}
use librfn.Common.{ℕ, ◌+◌, ◌-◌, ◌*◌, ◌^◌, Option, none, some, ◌==◌, if◌then◌else◌}
use librfn.Common.Word.{u32, sub32, ◌>>>◌}

unfoldable pub bitcnt : ℕ → ℕ
bitcnt x =
    let n = bit_and (x >>> 1) 0x77777777 in
    let x = sub32 x n in
    let n = bit_and (n >>> 1) 0x77777777 in
    let x = sub32 x n in
    let n = bit_and (n >>> 1) 0x77777777 in
    let x = sub32 x n in
    let x = bit_and (u32 (x + (x >>> 4))) 0x0F0F0F0F in let x = u32 (x * 0x01010101) in x >>> 24

-- `~x` is what is missing to the greatest word.
unfoldable pub clz : ℕ → ℕ
unfolding bitcnt
clz x =
    let x = bit_or x (x >>> 1) in
    let x = bit_or x (x >>> 2) in
    let x = bit_or x (x >>> 4) in
    let x = bit_or x (x >>> 8) in let x = bit_or x (x >>> 16) in bitcnt (2 ^ 32 - 1 - x)

unfoldable pub ctz : ℕ → ℕ
unfolding bitcnt
ctz x = bitcnt (bit_and (2 ^ 32 - 1 - x) (sub32 x 1))

-- The assertion fails for zero.
unfoldable pub ilog2 : ℕ → Option ℕ
unfolding clz
ilog2 x = if x == 0 then none else some (31 - clz x)
