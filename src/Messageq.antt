-- ===== src/Messageq.antt =====
-- librfn/messageq.c and include/librfn/messageq.h: a queue of message slots, claimed and sent by
-- any number of senders, received and released by one receiver. A pointer is the number of its
-- address, and `none` is NULL; the messages themselves belong to the clients.
pub mod Spec
mod Flags
pub mod Represents
pub mod Refine
pub mod Receive
pub mod Claimants
mod Examples
use Prim.Native.Nat.{bit_and, bit_or}
use librfn.Common.{ℕ, ◌+◌, ◌-◌, ◌*◌, ◌/◌, ◌^◌, Bool, Option, none, some, leb, ◌==◌, if◌then◌else◌}
use librfn.Common.Word.{u8, u16, u32}

-- `messageq_t`
pub record Messageq : Type 0 where
  pub basep : ℕ
  pub msg_len : ℕ  -- uint16_t
  pub queue_len : ℕ  -- unsigned char
  pub num_free : ℕ  -- atomic_uchar
  pub sendp : ℕ  -- atomic_uchar
  pub full_flags : ℕ  -- atomic_uint
  pub receivep : ℕ  -- unsigned char

-- The length of a message is positive: the source divides by it.
unfoldable pub init : ℕ → ℕ → ℕ → Messageq
init basep base_len msg_len = record {
  basep = basep;
  msg_len = u16 msg_len;
  queue_len = u8 (base_len / msg_len);
  num_free = u8 (base_len / msg_len);
  sendp = 0;
  full_flags = 0;
  receivep = 0;
}

-- `basep + p * msg_len`
unfoldable pub slot : Messageq → ℕ → ℕ
slot mq p = mq.basep + p * mq.msg_len

-- `sendp >= (mq->queue_len-1) ? 0 : sendp+1`. For `queue_len` zero the subtraction gives -1 in C
-- and 0 here, and the test holds of every pointer both ways.
unfoldable pub next_slot : ℕ → ℕ → ℕ
next_slot queue_len p = if leb (queue_len - 1) p then 0 else u8 (p + 1)

-- The same of `receivep`, against `(unsigned int)(mq->queue_len - 1)`.
unfoldable pub next_receivep : ℕ → ℕ → ℕ
next_receivep queue_len p = if leb (u32 (queue_len + (2 ^ 32 - 1))) p then 0 else u8 (p + 1)

-- `atomic_fetch_sub` and `atomic_fetch_add` of 1 on an `unsigned char`.
abbrev pub fetch_sub : Messageq → Messageq
fetch_sub mq = record mq { num_free = u8 (mq.num_free + (2 ^ 8 - 1)) }

abbrev pub fetch_add : Messageq → Messageq
fetch_add mq = record mq { num_free = u8 (mq.num_free + 1) }

-- With no other claimant running, the compare-and-exchange succeeds once it does not fail
-- spuriously, and its repetition changes nothing.
unfoldable pub claim : Messageq → Option ℕ × Messageq
claim mq =
    let num_free = mq.num_free in
    let mq' = fetch_sub mq in
    if leb num_free 0
    then (none, fetch_add mq')
    else (some (slot mq' mq'.sendp), record mq' { sendp = next_slot mq'.queue_len mq'.sendp })

-- `1 << p`: defined in C for `p` below 32, which `Refine` shows of every sent slot.
abbrev pub flag : ℕ → ℕ
flag p = 2 ^ p

unfoldable pub send : Messageq → ℕ → Messageq
send mq msg =
    let offset = u32 (msg - mq.basep) in
    let sendp = offset / mq.msg_len in record mq { full_flags = bit_or mq.full_flags (flag sendp) }

-- `~(1 << p)` on 32 bits.
abbrev pub all_but : ℕ → ℕ
all_but p = 2 ^ 32 - 1 - flag p

unfoldable pub receive : Messageq → Option ℕ × Messageq
receive mq =
    let receivep = mq.receivep in
    let full_flags = mq.full_flags in
    let mq' = record mq { full_flags = bit_and full_flags (all_but receivep) } in
    if 0 == bit_and full_flags (flag receivep)
    then (none, mq')
    else (some (slot mq' receivep), record mq' { receivep = next_receivep mq'.queue_len receivep })

-- The message argument is not used.
unfoldable pub release : Messageq → ℕ → Messageq
release mq msg = fetch_add mq

unfoldable pub empty : Messageq → Bool
empty mq = 0 == bit_and mq.full_flags (flag mq.receivep)
