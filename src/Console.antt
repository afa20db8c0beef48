-- ===== src/Console.antt =====
-- librfn/console.c and include/librfn/console.h: a command console over a ring buffer of characters. A character
-- is a number; what is printed to `c->out` is appended to a list; a pointer into `c->scratch.buf` is an offset.
pub mod Words
pub mod Separated
pub mod Arguments
pub mod Table
pub mod Tokens
pub mod Run
pub mod Eval
pub mod Commands
pub mod Order
pub mod Register
pub mod Editing
pub mod Processing
mod Examples
use librfn.Common.{ℕ, List, [], ◌∷◌, ◌++◌, Option, Bool, get_or, drop}
use librfn.Strings.{c_string}
use librfn.Ringbuf.{Ringbuf}

-- `console_cmd_t`. `name` is `none` for NULL, `fn` tells the functions apart.
pub record Command : Type 0 where
  pub name : Option (List ℕ)
  pub fn : ℕ

-- Where `console_run` goes on.
pub data Label : Type 0 where
  at_begin at_getch at_spawn : Label

-- `console_t`. `scratch` is its bytes, `bufp` an offset in them, and so are the `argv`.
pub record Console : Type 0 where
  pub priv : Label
  pub prompt : List ℕ
  pub out : List ℕ
  pub ring : Ringbuf
  pub scratch : List ℕ
  pub bufp : ℕ
  pub argc : ℕ
  pub argv : List ℕ
  pub cmd : Command
  pub pt : ℕ

abbrev pub fprintf : Console → List ℕ → Console
fprintf c printed = record c { out = c.out ++ printed }

-- The string at an offset of a buffer, up to its NUL.
abbrev pub string_at : List ℕ → ℕ → List ℕ
string_at buf i = c_string (drop i buf)
