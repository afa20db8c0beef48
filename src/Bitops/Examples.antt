-- ===== src/Bitops/Examples.antt =====
-- Counts of bits.
use librfn.Common.{◌≡◌, refl, some, arith}
use librfn.Bitops.{bitcnt, clz, ctz, ilog2}
use librfn.Bitops.Count.{ones, bitcnt_lem}

bitcnt_lem_example : bitcnt 0xf00f0101 ≡ ones 32 0xf00f0101
bitcnt_lem_example = bitcnt_lem 0xf00f0101 (omega arith)

counts_zeros : (clz 0x00f00000 ≡ 8) × (ctz 0x00f00000 ≡ 20) × (ilog2 0x00f00000 ≡ some 23)
unfolding clz ctz ilog2
counts_zeros = (refl, refl, refl)
