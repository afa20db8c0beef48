-- ===== src/Bitops/Count.antt =====
-- `bitcnt` is the number of bits that are set.
use Prim.Native.Nat.{bit_and}
use librfn.Common.{
  all_below-at, ℕ, zero, suc, ◌+◌, ◌-◌, ◌*◌, ◌/◌, ◌%◌, ◌^◌, ◌≡◌, ◌≤◌, ◌<◌, refl, sym, ap, ap₂,
  subst, ◌∙◌, ◌&&◌, arith, leb, ◌==◌,
}
use native.Mathlib.Decide.{dec_lt}
use native.Mathlib.Nat.{pow-suc}
use librfn.Common.Bits.{masked}
use librfn.Common.Word.{u32, sub32, ◌>>>◌}
use librfn.Bitops.{bitcnt}
use librfn.Bitops.Bytes.{word, and-word, word-bytes, halved, odd}

-- The number of bits that are set among the lowest `k`.
abbrev pub ones : ℕ → ℕ → ℕ
ones zero x = 0
ones (suc k) x = x % 2 + ones k (x / 2)

-- What one of the three rounds makes of a byte of `n`, whose top bit comes from the next byte.
abbrev shifted : ℕ → ℕ
shifted b = bit_and (b / 2) 0x77

byte_shift : (b c : ℕ) → b < 2 ^ 8 → bit_and (b / 2 + 128 * (c % 2)) 0x77 ≡ shifted b
byte_shift b c h = elim (dec_lt (c % 2) 1) [
  | yes even ↦ ap (λ n. bit_and n 0x77) (omega (arith, even))
  | no other ↦
      let one : b / 2 + 128 * (c % 2) ≡ b / 2 + 128 = omega (arith, other) in
      ap (λ n. bit_and n 0x77) one
      ∙ ground (
        arith,
        all_below-at 256 (λ b. bit_and (b / 2 + 128) 0x77 == bit_and (b / 2) 0x77) b refl h,
      )
]

shifted-le : (b : ℕ) → b < 2 ^ 8 → shifted b ≤ b / 2
shifted-le b h = ground (arith, all_below-at 256 (λ b. leb (bit_and (b / 2) 0x77) (b / 2)) b refl h)

round :
    (a b c d : ℕ)
    → a < 2 ^ 8
    → b < 2 ^ 8
    → c < 2 ^ 8
    → d < 2 ^ 8
    → bit_and (word a b c d >>> 1) 0x77777777 ≡ word (shifted a) (shifted b) (shifted c) (shifted d)
round a b c d ha hb hc hd =
    let halves : word a b c d >>> 1
        ≡ word (a / 2 + 128 * (b % 2)) (b / 2 + 128 * (c % 2)) (c / 2 + 128 * (d % 2))
            (d / 2 + 128 * (0 % 2)) =
      omega arith in
    ap (λ n. bit_and n 0x77777777) halves
    ∙ (and-word (a / 2 + 128 * (b % 2)) (b / 2 + 128 * (c % 2)) (c / 2 + 128 * (d % 2))
          (d / 2 + 128 * (0 % 2)) 0x77 (omega (arith, ha)) (omega (arith, hb)) (omega (arith, hc))
          (omega arith)
        ∙ omega (arith, byte_shift a b ha, byte_shift b c hb, byte_shift c d hc, byte_shift d 0 hd))

-- A byte after the three rounds: in each half the number of the bits that were set in it.
abbrev left : ℕ → ℕ
left b = b - shifted b - shifted (shifted b) - shifted (shifted (shifted b))

left-bounds : (b : ℕ) → b < 2 ^ 8 → (left b % 16 ≤ 4) × (left b / 16 ≤ 4)
left-bounds b h =
    ground (arith, all_below-at 256 (λ b. leb (left b % 16) 4 && leb (left b / 16) 4) b refl h)

left-ones : (b : ℕ) → b < 2 ^ 8 → left b % 16 + left b / 16 ≡ ones 8 b
left-ones b h =
    ground (arith, all_below-at 256 (λ b. (left b % 16 + left b / 16) == ones 8 b) b refl h)

sub-word :
    (a b c d a' b' c' d' : ℕ)
    → word a b c d < 2 ^ 32
    → a' ≤ a
    → b' ≤ b
    → c' ≤ c
    → d' ≤ d
    → sub32 (word a b c d) (word a' b' c' d') ≡ word (a - a') (b - b') (c - c') (d - d')
sub-word a b c d a' b' c' d' h ha hb hc hd = omega (arith, h, ha, hb, hc, hd)

-- One of the last additions, where `s` and `t` are neighbouring bytes.
halves_added :
    (s t : ℕ)
    → s % 16 ≤ 4
    → s / 16 ≤ 4
    → t % 16 ≤ 4
    → bit_and (s + s / 16 + 16 * (t % 16)) 0x0F ≡ s % 16 + s / 16
halves_added s t h h' k = omega (arith, masked 4 (s + s / 16 + 16 * (t % 16)), h, h', k)

add_halves :
    (s t u v : ℕ)
    → s % 16 ≤ 4
    → s / 16 ≤ 4
    → t % 16 ≤ 4
    → t / 16 ≤ 4
    → u % 16 ≤ 4
    → u / 16 ≤ 4
    → v % 16 ≤ 4
    → v / 16 ≤ 4
    → bit_and (u32 (word s t u v + (word s t u v >>> 4))) 0x0F0F0F0F
      ≡ word (s % 16 + s / 16) (t % 16 + t / 16) (u % 16 + u / 16) (v % 16 + v / 16)
add_halves s t u v ls hs lt ht lu hu lv hv =
    let sums : u32 (word s t u v + (word s t u v >>> 4))
        ≡ word (s + s / 16 + 16 * (t % 16)) (t + t / 16 + 16 * (u % 16))
            (u + u / 16 + 16 * (v % 16)) (v + v / 16 + 16 * (0 % 16)) =
      omega (arith, ls, hs, lt, ht, lu, hu, lv, hv) in
    ap (λ n. bit_and n 0x0F0F0F0F) sums
    ∙ (and-word (s + s / 16 + 16 * (t % 16)) (t + t / 16 + 16 * (u % 16))
          (u + u / 16 + 16 * (v % 16)) (v + v / 16 + 16 * (0 % 16)) 0x0F (omega (arith, ls, hs, lt))
          (omega (arith, lt, ht, lu)) (omega (arith, lu, hu, lv)) (omega arith)
        ∙ omega (
          arith,
          halves_added s t ls hs lt,
          halves_added t u lt ht lu,
          halves_added u v lu hu lv,
          halves_added v 0 lv hv (omega arith),
        ))

summed :
    (p q r t : ℕ)
    → p ≤ 8
    → q ≤ 8
    → r ≤ 8
    → t ≤ 8
    → u32 (word p q r t * 0x01010101) >>> 24 ≡ p + q + r + t
summed p q r t hp hq hr ht = omega (arith, hp, hq, hr, ht)

ones-split : (j k b r : ℕ) → b < 2 ^ j → ones (j + k) (b + r * 2 ^ j) ≡ ones j b + ones k r
ones-split zero k b r h =
    let count : 0 + k ≡ k = omega arith in
    let rest : b + r * 2 ^ 0 ≡ r = omega (arith, h) in ap₂ ones count rest ∙ omega arith
ones-split (suc j) k b r h =
    let rest =
      ap (ones (j + k)) (halved b r j) ∙ ones-split j k (b / 2) r (omega (arith, h, pow-suc 2 j)) in
    let count : suc j + k ≡ suc (j + k) = omega arith in
    ap (λ n. ones n (b + r * 2 ^ suc j)) count ∙ omega (arith, odd b r j, rest)

ones-word :
    (a b c d : ℕ)
    → a < 2 ^ 8
    → b < 2 ^ 8
    → c < 2 ^ 8
    → ones 32 (word a b c d) ≡ ones 8 a + ones 8 b + ones 8 c + ones 8 d
ones-word a b c d ha hb hc =
    let first = ones-split 8 24 a (b + (c + d * 2 ^ 8) * 2 ^ 8) ha in
    let second = ones-split 8 16 b (c + d * 2 ^ 8) hb in
    let third = ones-split 8 8 c d hc in
    first ∙ (ap (λ n. ones 8 a + n) (second ∙ ap (λ n. ones 8 b + n) third) ∙ omega arith)

-- The rounds never borrow from the next byte.
record Shrinks (b : ℕ) : Type 0 where
  first_small : shifted b < 2 ^ 8
  second_small : shifted (shifted b) < 2 ^ 8
  first_le : shifted b ≤ b
  second_le : shifted (shifted b) ≤ b - shifted b
  third_le : shifted (shifted (shifted b)) ≤ b - shifted b - shifted (shifted b)

shrinks : (b : ℕ) → b < 2 ^ 8 → Shrinks b
shrinks b h =
    let one = shifted-le b h in
    let two = shifted-le (shifted b) (omega (arith, one, h)) in
    let three = shifted-le (shifted (shifted b)) (omega (arith, one, two, h)) in
    record {
      first_small = omega (arith, one, h);
      second_small = omega (arith, one, two, h);
      first_le = omega (arith, one);
      second_le = omega (arith, one, two);
      third_le = omega (arith, one, two, three);
    }

module _ (a b c d : ℕ) (ha : a < 2 ^ 8) (hb : b < 2 ^ 8) (hc : c < 2 ^ 8) (hd : d < 2 ^ 8) where
  -- The word after the three rounds.
  rounds :
      let x = word a b c d in
      let n1 = bit_and (x >>> 1) 0x77777777 in
      let n2 = bit_and (n1 >>> 1) 0x77777777 in
      let n3 = bit_and (n2 >>> 1) 0x77777777 in
      sub32 (sub32 (sub32 x n1) n2) n3 ≡ word (left a) (left b) (left c) (left d)
  rounds =
      let sa = shrinks a ha in
      let sb = shrinks b hb in
      let sc = shrinks c hc in
      let sd = shrinks d hd in
      let r1 = round a b c d ha hb hc hd in
      let r2 =
        round (shifted a) (shifted b) (shifted c) (shifted d) sa.first_small sb.first_small
          sc.first_small sd.first_small in
      let r3 =
        round (shifted (shifted a)) (shifted (shifted b)) (shifted (shifted c))
          (shifted (shifted d)) sa.second_small sb.second_small sc.second_small sd.second_small in
      let m1 =
        sub-word a b c d (shifted a) (shifted b) (shifted c) (shifted d)
          (omega (arith, ha, hb, hc, hd)) sa.first_le sb.first_le sc.first_le sd.first_le in
      let m2 =
        sub-word (a - shifted a) (b - shifted b) (c - shifted c) (d - shifted d)
          (shifted (shifted a)) (shifted (shifted b)) (shifted (shifted c)) (shifted (shifted d))
          (omega (arith, ha, hb, hc, hd)) sa.second_le sb.second_le sc.second_le sd.second_le in
      let m3 =
        sub-word (a - shifted a - shifted (shifted a)) (b - shifted b - shifted (shifted b))
          (c - shifted c - shifted (shifted c)) (d - shifted d - shifted (shifted d))
          (shifted (shifted (shifted a))) (shifted (shifted (shifted b)))
          (shifted (shifted (shifted c))) (shifted (shifted (shifted d)))
          (omega (arith, ha, hb, hc, hd)) sa.third_le sb.third_le sc.third_le sd.third_le in
      rw (r1, r2, r3, m1, m2, m3) refl

  -- The byte-wise sums of the halves.
  added :
      let x = word (left a) (left b) (left c) (left d) in
      bit_and (u32 (x + (x >>> 4))) 0x0F0F0F0F
      ≡ word
          (left a % 16 + left a / 16)
          (left b % 16 + left b / 16)
          (left c % 16 + left c / 16)
          (left d % 16 + left d / 16)
  added =
      let (la, la') = left-bounds a ha in
      let (lb, lb') = left-bounds b hb in
      let (lc, lc') = left-bounds c hc in
      let (ld, ld') = left-bounds d hd in
      add_halves (left a) (left b) (left c) (left d) la la' lb lb' lc lc' ld ld'

  count-word : bitcnt (word a b c d) ≡ ones 32 (word a b c d)
  unfolding bitcnt
  count-word =
      let (la, la') = left-bounds a ha in
      let (lb, lb') = left-bounds b hb in
      let (lc, lc') = left-bounds c hc in
      let (ld, ld') = left-bounds d hd in
      let add = added in
      let total =
        summed (left a % 16 + left a / 16) (left b % 16 + left b / 16) (left c % 16 + left c / 16)
          (left d % 16 + left d / 16) (omega (arith, la, la')) (omega (arith, lb, lb'))
          (omega (arith, lc, lc')) (omega (arith, ld, ld')) in
      ap (λ x. u32 (bit_and (u32 (x + (x >>> 4))) 0x0F0F0F0F * 0x01010101) >>> 24) rounds
      ∙ (ap (λ x. u32 (x * 0x01010101) >>> 24) add
          ∙ (total
              ∙ (ap₂ (λ p q. p + q)
                    (ap₂ (λ p q. p + q) (ap₂ (λ p q. p + q) (left-ones a ha) (left-ones b hb))
                      (left-ones c hc))
                    (left-ones d hd)
                  ∙ sym (ones-word a b c d ha hb hc))))

-- For every word `bitcnt` is the number of its bits that are set.
pub bitcnt_lem : (x : ℕ) → x < 2 ^ 32 → bitcnt x ≡ ones 32 x
bitcnt_lem x h =
    let (split, top) = word-bytes x h in
    subst (λ y. bitcnt y ≡ ones 32 y) (sym split)
      (count-word (x % 2 ^ 8) (x / 2 ^ 8 % 2 ^ 8) (x / 2 ^ 16 % 2 ^ 8) (x / 2 ^ 24) (omega arith)
        (omega arith) (omega arith) top)
