-- ===== src/Virtual/Axes.antt =====
-- The axes of a regular selection: what is written is read back.
use hdf5_rs.Prelude.{
  ℕ, ◌+◌, ◌-◌, ◌^◌, ◌<◌, ◌≤◌, ◌≡◌, refl, arith, max, List, [], ◌∷◌, ◌++◌, length, append-nil, All,
  ◌==◌, ==_iff, false, if◌then◌else◌, Option, none, some,
}
use hdf5_rs.Prelude.Bytes.{to_le}
use hdf5_rs.Buffer.{u64}
use hdf5_rs.Buffer.Parser.{Reads, >>=-Reads, pure-Reads, Reads-from, uint8-Reads}
use hdf5_rs.Buffer.Writing.{◌then◌, Writes, raw-Writes, then-Writes, skip-Writes}
use hdf5_rs.Virtual.{Regular}
use hdf5_rs.Virtual.Parse.{read_axis, read_axes, limited}
use hdf5_rs.Virtual.Encode.{count_or_max, encode_axes}

-- A count below the one that stands for no limit.
abbrev IsCount : Option ℕ → Type 0
IsCount none = Unit {0}
IsCount (some c) = c + 1 < 2 ^ 64

-- An axis that can be written: 64-bit numbers and a stride that is not 0.
pub record IsAxis (a : Regular) : Type 0 where
  pub start : a.start < 2 ^ 64
  pub stride : a.stride < 2 ^ 64
  pub step : 1 ≤ a.stride
  pub count : IsCount a.count
  pub block : a.block < 2 ^ 64

abbrev axis_code : Regular → List ℕ
axis_code a =
    to_le 8 a.start
    ++ (to_le 8 (max a.stride 1) ++ (to_le 8 (count_or_max a.count) ++ to_le 8 a.block))

axis-Writes :
    (a : Regular)
    → Writes
        (u64 a.start then u64 (max a.stride 1) then u64 (count_or_max a.count) then u64 a.block)
        (axis_code a)
axis-Writes a =
    then-Writes (then-Writes (then-Writes (raw-Writes _) (raw-Writes _)) (raw-Writes _))
      (raw-Writes _)

count-lt : (c : Option ℕ) → IsCount c → count_or_max c < 2 ^ 64
count-lt none h = omega arith
count-lt (some c) h = omega arith

limited-count_or_max : (c : Option ℕ) → IsCount c → limited (2 ^ 64 - 1) (count_or_max c) ≡ c
limited-count_or_max none h = refl
limited-count_or_max (some c) h =
    let ne : (c == 2 ^ 64 - 1) ≡ false = grind (arith, ==_iff) in rw ne refl

block_back : (b : ℕ) → (if b == 2 ^ 64 - 1 then 2 ^ 64 - 1 else b) ≡ b
block_back b = grind (arith, ==_iff)

read_axis-Reads : (a : Regular) → IsAxis a → Reads (read_axis 8 (2 ^ 64 - 1)) (axis_code a) a
unfolding read_axis
read_axis-Reads a h =
    let stride : max a.stride 1 ≡ a.stride = omega (arith, h.step) in
    >>=-Reads _ (uint8-Reads a.start h.start) (
      >>=-Reads _ (uint8-Reads (max a.stride 1) (omega (arith, h.stride))) (
        >>=-Reads _ (uint8-Reads (count_or_max a.count) (count-lt a.count h.count)) (
          Reads-from (append-nil (to_le 8 a.block)) (
            >>=-Reads _ (uint8-Reads a.block h.block) (
              rw (stride, limited-count_or_max a.count h.count, block_back a.block)
                (pure-Reads a))))))

abbrev pub axes_code : List Regular → List ℕ
axes_code [] = []
axes_code (a ∷ rest) = axis_code a ++ axes_code rest

pub encode_axes-Writes : (axes : List Regular) → Writes (encode_axes axes) (axes_code axes)
unfolding encode_axes
encode_axes-Writes [] = skip-Writes
encode_axes-Writes (a ∷ rest) = record {
  run = (then-Writes (axis-Writes a) (encode_axes-Writes rest)).run;
}

pub read_axes-Reads :
    (axes : List Regular)
    → All IsAxis axes
    → Reads (read_axes 8 (2 ^ 64 - 1) (length axes)) (axes_code axes) axes
unfolding read_axes
read_axes-Reads [] h = pure-Reads []
read_axes-Reads (a ∷ rest) (h, hs) = >>=-Reads _ (read_axis-Reads a h) (
    Reads-from (append-nil (axes_code rest))
      (>>=-Reads _ (read_axes-Reads rest hs) (pure-Reads (a ∷ rest))))
