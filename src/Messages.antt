-- ===== src/Messages.antt =====
-- The messages of an object header: what hdf5/src/format/writer.rs encodes and
-- hdf5/src/format/reader.rs parses. Here are the types and the names that a zero ends; a child
-- stands for each kind of message.
pub mod Space
pub mod Pipeline
pub mod Layout
pub mod Fill
pub mod Info
pub mod LinkMessage
pub mod RoundTrip
mod Runs
use hdf5_rs.Prelude.{ℕ, ◌-◌, ◌^◌, List, [], ◌∷◌, ◌==◌, if◌then◌else◌, Option, none, some}
use hdf5_rs.Buffer.{Buf}
use hdf5_rs.Arena.{Text}
use hdf5_rs.Datatype.Names.{lossy}

-- `UNDEF`, the address of nothing
abbrev pub undef : ℕ
undef = 2 ^ 64 - 1

abbrev pub new_buf : Buf
new_buf = record { bytes = [] }

-- The bytes up to the first zero, and those behind it.
unfoldable pub before_zero : List ℕ → List ℕ
before_zero [] = []
before_zero (b ∷ bs) = if b == 0 then [] else b ∷ before_zero bs

unfoldable pub after_zero : List ℕ → List ℕ
after_zero [] = []
after_zero (b ∷ bs) = if b == 0 then bs else after_zero bs

unfoldable pub cstr : List ℕ → Text
unfolding before_zero lossy
cstr bytes = lossy (before_zero bytes)
