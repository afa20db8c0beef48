-- ===== src/Console/Eval.antt =====
-- librfn/console.c: a string put into the ring of the console by a protothread, which keeps its place in the scratch buffer.
use librfn.Common.{
  ℕ, zero, suc, ◌+◌, ◌*◌, ◌/◌, ◌%◌, ◌^◌, Bool, Option, none, some, List, get_or, set, ◌==◌,
  if◌then◌else◌,
}
use librfn.Common.Word.{u8}
use librfn.Ringbuf as Ring
use librfn.Fibre.{state_yielded, state_exited}
use librfn.Console.{Console}

-- `&c->scratch.u16[sizeof(c->scratch.u16)-1]`: the two bytes at 158, the lower one first.
abbrev pub eval_index : Console → ℕ
eval_index c = get_or c.scratch 158 0 + 256 * get_or c.scratch 159 0

abbrev pub with_eval_index : Console → ℕ → Console
with_eval_index c i = record c { scratch = set (set c.scratch 158 (i % 256)) 159 (i / 256 % 256) }

-- The loop of `console_eval`, which stops at the end of `cmd` or when the ring is full.
unfoldable pub eval_loop : ℕ → List ℕ → Console → Option (ℕ × Console)
unfolding Ring.put
eval_loop zero cmd c = none
eval_loop (suc fuel) cmd c =
    let (put, ring) = Ring.put c.ring (u8 (get_or cmd (eval_index c) 0)) in
    let more =
      eval_loop fuel cmd
        (with_eval_index (record c { ring = ring }) ((eval_index c + 1) % 2 ^ 16)) in
    if get_or cmd (eval_index c) 0 == 0
    then some (state_exited, c)
    else if put
    then more
    else some (state_yielded, record c { ring = ring })

-- `resumed` tells a call that goes on behind `PT_YIELD` from the first one.
unfoldable pub console_eval : Bool → ℕ → List ℕ → Console → Option (ℕ × Console)
unfolding eval_loop
console_eval resumed fuel cmd c = eval_loop fuel cmd (if resumed then c else with_eval_index c 0)
