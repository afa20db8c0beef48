-- ===== src/Console/Processing.antt =====
-- A character that a client hands to the console, through the ring and into the line.
use librfn.Common.{
  ℕ, suc, ◌≡◌, ◌≢◌, ◌<◌, refl, sym, ap, ◌∙◌, subst, none, some, List, [], ◌∷◌, arith,
}
use librfn.Common.Word.{u8}
use librfn.Ringbuf.{Ringbuf, Get, returned, assert_failed}
use librfn.Ringbuf as Ring
use librfn.Ringbuf.Stores.{Stores}
use librfn.Ringbuf.Refine.{filled, filled-Stores, put_of_room, get_refines}
use librfn.Fibre.{state_waiting}
use librfn.Console.{Console, at_getch}
use librfn.Console.Table.{Slots}
use librfn.Console.Run.{
  done, waits, handle_char, read_loop, console_getch, console_run, run_while_yielded,
  console_process,
}
use librfn.Console.Editing.{edited, Shows, handle_char_lem}

module _ (fn : ℕ → Console → ℕ × Console) (table : Slots) where
  -- The loop goes round once for the character, and then waits.
  read_one :
      (c c' : Console) (ch fuel : ℕ) (rb rb' : Ringbuf)
      → Ring.get c.ring ≡ returned (some ch) rb
      → handle_char fn table ch (record c { ring = rb; priv = at_getch }) ≡ waits c'
      → Ring.get c'.ring ≡ returned none rb'
      → read_loop fn table (suc (suc fuel)) c
        ≡ done state_waiting (record c' { ring = rb'; priv = at_getch })
  unfolding read_loop console_getch
  read_one c c' ch fuel rb rb' first handled empty =
      rw (read_loop, first, handled, read_loop, empty) refl

  -- For a console that waits for a character, with an empty ring of more than one byte and room in the
  -- line, and enough fuel: `console_process` of a character below 256 that is neither a line
  -- feed nor Ctrl-C returns; the line is edited by the character and the ring is empty again.
  pub console_process_lem :
      (c : Console) (text : List ℕ) (at ch fuel rounds : ℕ)
      → c.priv ≡ at_getch
      → Stores c.ring []
      → 1 < c.ring.buf_len
      → Shows c text at
      → at < 79
      → ch < 256
      → ch ≢ b'\n'
      → ch ≢ 3
      → (c' : Console) × (console_process fn table (suc (suc fuel)) (suc rounds) c ch
          ≡ done state_waiting c')
        × (c'.priv ≡ at_getch)
        × Stores c'.ring []
        × Shows c' (edited text at ch).0 (edited text at ch).1
  unfolding console_process run_while_yielded console_run Ring.Queue.get
  console_process_lem c text at ch fuel rounds waiting stores big shows room byte nl ctrl_c =
      let stored = filled-Stores ch stores big in
      let put = put_of_room ch stores big in
      let (rb, first, stores', same) = get_refines (ch ∷ []) stored in
      let before : Console = record c { ring = rb; priv = at_getch } in
      let (c', handled, ring, shows') =
        handle_char_lem fn table before text at ch shows room nl ctrl_c in
      let (rb', empty, stores'', same') =
        get_refines [] (subst (λ r. Stores r []) (sym ring) stores') in
      let same_byte : u8 ch ≡ ch = ground (arith, byte) in
      let ran = run_while_yielded fn table (suc (suc fuel)) (suc rounds) in
      let read =
        read_one (record c { ring = filled c.ring ch }) c' ch fuel rb rb' first handled empty in
      (
        record c' { ring = rb'; priv = at_getch },
        ap (λ n. ran (record c { ring = (Ring.put c.ring n).1 })) same_byte
            ∙ ap (λ r. ran (record c { ring = r.1 })) put
            ∙ rw (run_while_yielded, console_run, waiting, read) refl,
        refl,
        stores'',
        shows',
      )
