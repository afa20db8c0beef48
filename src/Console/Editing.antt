-- ===== src/Console/Editing.antt =====
-- The line editor as what it does to a text with a cursor.
use librfn.Common.{
  ℕ, suc, ◌+◌, ◌-◌, ◌≡◌, ◌≢◌, ◌≤◌, ◌<◌, refl, sym, ap, ap₂, ==_iff, ◌∙◌, true, false, List, [], ◌∷◌,
  ◌++◌, arith, length, length-append, length-set, set-append, set, replicate, leb, ltb, ◌==◌,
  if◌then◌else◌, ne→==, Bool-cases, inl, inr,
}
use librfn.Console.{Console, fprintf}
use librfn.Console.Table.{Slots}
use librfn.Console.Run.{waits, handle_char, do_prompt}

-- The text typed so far and the place of the next character. A backspace only moves that place: the
-- character there stays until another one is typed over it.
abbrev pub edited : List ℕ → ℕ → ℕ → List ℕ × ℕ
edited text at ch =
    if ch == 8
    then (text, at - 1)
    else if at == length text
    then (text ++ (ch ∷ []), at + 1)
    else (set text at ch, at + 1)

-- The text lies at the start of the buffer, which is zero from its end on.
abbrev pub Shows : Console → List ℕ → ℕ → Type 0
Shows c text at =
    (c.scratch ≡ text ++ replicate (160 - length text) 0)
    × (c.bufp ≡ at)
    × (at ≤ length text)
    × (length text ≤ 79)

set-end :
    (text : List ℕ) (ch n : ℕ)
    → set (text ++ replicate (suc n) 0) (length text) ch ≡ (text ++ (ch ∷ [])) ++ replicate n 0
set-end [] ch n = refl
set-end (x ∷ text) ch n = ap (λ l. x ∷ l) (set-end text ch n)

abbrev typed : Console → ℕ → Console
typed c ch = record c { scratch = set c.scratch c.bufp ch; bufp = c.bufp + 1 }

Shows-append :
    (c : Console) (text : List ℕ) (at ch : ℕ)
    → Shows c text at
    → at < 79
    → at ≡ length text
    → Shows (typed c ch) (text ++ (ch ∷ [])) (at + 1)
Shows-append c text at ch (is, place, inside, short) room at_end =
    let text' = text ++ (ch ∷ []) in
    let longer : length text' ≡ length text + 1 = length-append text (ch ∷ []) in
    let left : 160 - length text ≡ suc (160 - length text') = omega (arith, longer, short) in
    (
      ap₂ (λ l n. set l n ch) is (place ∙ at_end)
          ∙ ap (λ k. set (text ++ replicate k 0) (length text) ch) left
          ∙ set-end text ch (160 - length text'),
      ap (λ n. n + 1) place,
      omega (arith, at_end, longer),
      omega (arith, at_end, longer, room),
    )

Shows-over :
    (c : Console) (text : List ℕ) (at ch : ℕ)
    → Shows c text at
    → at < length text
    → Shows (typed c ch) (set text at ch) (at + 1)
Shows-over c text at ch (is, place, inside, short) before =
    let same = length-set text at ch in
    (
      ap₂ (λ l n. set l n ch) is place
          ∙ set-append text (replicate (160 - length text) 0) at ch before
          ∙ ap (λ k. set text at ch ++ replicate (160 - k) 0) (sym same),
      ap (λ n. n + 1) place,
      omega (arith, same, before),
      omega (arith, same, short),
    )

pub do_prompt-Shows : (c : Console) → Shows (do_prompt c) [] 0
unfolding do_prompt
do_prompt-Shows c = (refl, refl, omega arith, omega arith)

module _ (fn : ℕ → Console → ℕ × Console) (table : Slots) where
  handle_back :
      (c : Console) (ch : ℕ)
      → leb 79 c.bufp ≡ false
      → (ch == b'\n') ≡ false
      → (ch == 8) ≡ true
      → handle_char fn table ch c
        ≡ waits (
            if ltb 0 c.bufp
            then fprintf (record c { bufp = c.bufp - 1 }) (b' ' ∷ 8 ∷ [])
            else fprintf c (b' ' ∷ []))
  unfolding handle_char
  handle_back c ch room nl back = rw (handle_char, nl, room, back) refl

  handle_plain :
      (c : Console) (ch : ℕ)
      → leb 79 c.bufp ≡ false
      → (ch == b'\n') ≡ false
      → (ch == 8) ≡ false
      → (ch == 3) ≡ false
      → handle_char fn table ch c
        ≡ waits (record c { scratch = set c.scratch c.bufp ch; bufp = c.bufp + 1 })
  unfolding handle_char
  handle_plain c ch room nl back ctrl_c = rw (handle_char, nl, room, back, ctrl_c) refl

  -- A character that is neither a line feed nor Ctrl-C, typed while the line has room, is put at the
  -- cursor, behind the text or over it, and a backspace moves the cursor back unless it is at the start;
  -- the buffer never takes more than 79 characters, and the ring is left as it is.
  pub handle_char_lem :
      (c : Console) (text : List ℕ) (at ch : ℕ)
      → Shows c text at
      → at < 79
      → ch ≢ b'\n'
      → ch ≢ 3
      → (c' : Console) × (handle_char fn table ch c ≡ waits c')
        × (c'.ring ≡ c.ring)
        × Shows c' (edited text at ch).0 (edited text at ch).1
  handle_char_lem c text at ch (is, place, inside, short) room nl ctrl_c =
      let free : leb 79 c.bufp ≡ false = ground (arith, place, room) in
      elim (Bool-cases (ch == 8)) [
        | inl back ↦ elim (Bool-cases (ltb 0 c.bufp)) [
          | inl some_left ↦ rw back (
            fprintf (record c { bufp = c.bufp - 1 }) (b' ' ∷ 8 ∷ []),
            handle_back c ch free (ne→== ch b'\n' nl) back ∙ rw some_left refl,
            refl,
            (is, ap (λ n. n - 1) place, omega (arith, inside), short),
          )
          | inr none_left ↦ rw back (
            fprintf c (b' ' ∷ []),
            handle_back c ch free (ne→== ch b'\n' nl) back ∙ rw none_left refl,
            refl,
            (is, ground (arith, place, none_left), omega (arith, inside), short),
          )
        ]
        | inr plain ↦
            let handled = handle_plain c ch free (ne→== ch b'\n' nl) plain (ne→== ch 3 ctrl_c) in
            let shown : Shows c text at = (is, place, inside, short) in
            elim (Bool-cases (at == length text)) [
              | inl append ↦
                  rw (plain, append)
                    (
                      typed c ch,
                      handled,
                      refl,
                      Shows-append c text at ch shown room ((==_iff at (length text)).0 append),
                    )
              | inr over ↦
                  rw (plain, over)
                    (
                      typed c ch,
                      handled,
                      refl,
                      Shows-over c text at ch shown (ground (arith, inside, over)),
                    )
            ]
      ]
