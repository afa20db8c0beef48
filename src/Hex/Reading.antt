-- ===== src/Hex/Reading.antt =====
-- Reading a text of digit pairs and newlines gives the bytes that the pairs stand for.
use Prim.Native.Nat.{bit_and, bit_or}
use librfn.Common.{
  all_below-at, ℕ, zero, suc, ◌*◌, ◌/◌, ◌%◌, ◌^◌, ◌≡◌, ◌≤◌, ◌<◌, refl, ap, ◌∙◌, true, false, Option,
  none, some, List, [], ◌∷◌, arith, length, ◌==◌,
}
use librfn.Common.Bits.{masked}
use librfn.Common.Word.{◌>>>◌}
use librfn.Hex.{
  newline, hexchar, strchr, isspace, isxdigit, nibble, behind_colon, skip_space, skip_prefix, Got,
  none_left, byte, digits, conclude, get_line, next_line, hex_get_byte,
}

-- A dump is a sequence of bytes in two digits and of newlines.
abbrev pub text : List (Option ℕ) → List ℕ
text [] = []
text (none ∷ r) = newline ∷ text r
text (some b ∷ r) = hexchar (b >>> 4) ∷ hexchar (bit_and b 0xf) ∷ text r

abbrev pub bytes_of : List (Option ℕ) → List ℕ
bytes_of [] = []
bytes_of (none ∷ r) = bytes_of r
bytes_of (some b ∷ r) = b ∷ bytes_of r

abbrev pub AllBytes : List (Option ℕ) → Type 0
AllBytes [] = Unit
AllBytes (none ∷ r) = AllBytes r
AllBytes (some b ∷ r) = (b < 2 ^ 8) × AllBytes r

-- What is true of a digit of the dump.
pub hexchar-digit :
    (h : ℕ)
    → h < 16
    → (isxdigit (hexchar h) ≡ true)
      × (isspace (hexchar h) ≡ false)
      × ((hexchar h == b':') ≡ false)
      × ((b'x' == hexchar h) ≡ false)
unfolding hexchar
hexchar-digit h lt = ground (arith, lt)

nibble-hexchar : (h : ℕ) → h < 16 → nibble (hexchar h) ≡ h
unfolding nibble hexchar
nibble-hexchar h lt = ground (arith, all_below-at 16 (λ h. nibble (hexchar h) == h) h refl lt)

joined : (b : ℕ) → b < 2 ^ 8 → bit_or (16 * (b / 16)) (b % 16) ≡ b
joined b lt = ground (arith, all_below-at 256 (λ b. bit_or (16 * (b / 16)) (b % 16) == b) b refl lt)

text-no_colon : (r : List (Option ℕ)) → AllBytes r → strchr (text r) b':' ≡ none
unfolding strchr
text-no_colon [] a = refl
text-no_colon (none ∷ r) a = text-no_colon r a
text-no_colon (some b ∷ r) (small, a) =
    let low = masked 4 b in
    let (x1, s1, c1, p1) = hexchar-digit (b >>> 4) (omega (arith, small)) in
    let (x2, s2, c2, p2) = hexchar-digit (bit_and b 0xf) (omega (arith, low)) in
    rw (c1, c2) (text-no_colon r a)

module _ (b : ℕ) (r : List (Option ℕ)) (small : b < 2 ^ 8) where
  abbrev high : ℕ
  high = hexchar (b >>> 4)

  abbrev low : ℕ
  low = hexchar (bit_and b 0xf)

  low_digit : bit_and b 0xf ≡ b % 16
  low_digit = masked 4 b

  skip_prefix-text : skip_prefix (text (some b ∷ r)) ≡ text (some b ∷ r)
  skip_prefix-text =
      let (x2, s2, c2, p2) = hexchar-digit (bit_and b 0xf) (omega (arith, low_digit)) in
      rw p2 (ground arith)

  digits-text : digits (text (some b ∷ r)) ≡ some (b, text r)
  unfolding digits
  digits-text =
      let (x1, s1, c1, p1) = hexchar-digit (b >>> 4) (omega (arith, small)) in
      let (x2, s2, c2, p2) = hexchar-digit (bit_and b 0xf) (omega (arith, low_digit)) in
      let n1 = nibble-hexchar (b >>> 4) (omega (arith, small)) in
      let n2 = nibble-hexchar (bit_and b 0xf) (omega (arith, low_digit)) in
      rw (x1, x2, n1, n2, low_digit) (ap (λ v. some (v, text r)) (joined b small))

  get_line-byte : (next : List ℕ → Got) → get_line next (text (some b ∷ r)) ≡ byte b (text r)
  unfolding get_line skip_space
  get_line-byte next =
      let (x1, s1, c1, p1) = hexchar-digit (b >>> 4) (omega (arith, small)) in
      rw s1 (
        ap (λ start. conclude next (digits start) (strchr start newline)) skip_prefix-text
        ∙ ap (λ d. conclude next d (strchr (text (some b ∷ r)) newline)) digits-text)

-- The next byte of a dump, and what is behind it.
abbrev pub first_byte : List (Option ℕ) → Got
first_byte [] = none_left
first_byte (none ∷ r) = first_byte r
first_byte (some b ∷ r) = byte b (text r)

get_line-text :
    (next : List ℕ → Got) (r : List (Option ℕ))
    → AllBytes r
    → ((t : List (Option ℕ))
        → AllBytes t
        → length (text t) < length (text r)
        → next (text t) ≡ first_byte t)
    → get_line next (text r) ≡ first_byte r
unfolding get_line skip_space digits strchr
get_line-text next [] a ih = refl
get_line-text next (none ∷ r) a ih = ih r a (omega arith)
get_line-text next (some b ∷ r) (small, a) ih = get_line-byte b r small next

next_line-text :
    (fuel : ℕ) (r : List (Option ℕ))
    → AllBytes r
    → length (text r) < fuel
    → next_line fuel (text r) ≡ first_byte r
unfolding next_line
next_line-text zero r a h = absurd (omega arith)
next_line-text (suc fuel) r a h =
    ap (λ q. get_line (λ s. next_line fuel s) (behind_colon q (text r))) (text-no_colon r a)
    ∙ get_line-text (λ s. next_line fuel s) r a
        (λ t a' lt. next_line-text fuel t a' (omega (arith, lt, h)))

pub hex_get_byte-text :
    (r : List (Option ℕ)) (p : Option (List ℕ))
    → AllBytes r
    → hex_get_byte (some (text r)) p ≡ first_byte r
unfolding hex_get_byte
hex_get_byte-text r p a = next_line-text (suc (length (text r))) r a (omega arith)

hex_get_byte-again :
    (r : List (Option ℕ)) → AllBytes r → hex_get_byte none (some (text r)) ≡ first_byte r
unfolding hex_get_byte
hex_get_byte-again r a =
    get_line-text (λ t. next_line (suc (length (text r))) t) r a
      (λ t a' lt. next_line-text (suc (length (text r))) t a' (omega (arith, lt)))

-- The bytes that a client gets who goes on with `hex_get_byte(NULL, p)` until the result is -1, at most
-- `n` of them.
abbrev pub read_all : ℕ → Got → List ℕ
read_all zero g = []
read_all (suc n) (byte b s) = b ∷ read_all n (hex_get_byte none (some s))
read_all (suc n) g = []

pub read_all-text :
    (n : ℕ) (r : List (Option ℕ))
    → AllBytes r
    → length (bytes_of r) ≤ n
    → read_all n (first_byte r) ≡ bytes_of r
read_all-text zero [] a h = refl
read_all-text (suc n) [] a h = refl
read_all-text n (none ∷ r) a h = read_all-text n r a h
read_all-text zero (some b ∷ r) a h = absurd (omega (arith, h))
read_all-text (suc n) (some b ∷ r) (small, a) h =
    ap (λ g. b ∷ read_all n g) (hex_get_byte-again r a)
    ∙ ap (λ bs. b ∷ bs) (read_all-text n r a (omega (arith, h)))
