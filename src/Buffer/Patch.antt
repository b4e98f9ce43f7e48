-- ===== src/Buffer/Patch.antt =====
-- Back-patching: the reserved bytes take the number, all others stay.
use hdf5_rs.Prelude.{
  ℕ, ◌+◌, ◌%◌, ◌^◌, ◌≤◌, ◌≡◌, refl, ap, sym, subst, ◌∙◌, arith, List, ◌++◌, length, length-append,
  length-take, take, drop, take-append, drop-append, drop-add, length-drop, le→leb, ok,
}
use hdf5_rs.Prelude.Bytes.{to_le, length-to_le}
use hdf5_rs.Buffer.{Buf, patch, take_bytes, number}
use hdf5_rs.Buffer.Fields.{number-middle}

patched : ℕ → ℕ → ℕ → Buf → List ℕ
patched width pos v b = take pos b.bytes ++ (to_le width v ++ drop (pos + width) b.bytes)

patch-patched :
    (width pos v : ℕ) (b : Buf)
    → pos + width ≤ length b.bytes
    → patch width pos v b ≡ ok (record { bytes = patched width pos v b })
unfolding patch patched
patch-patched width pos v b h =
    let len = length-to_le width v in
    let fits : pos + length (to_le width v) ≤ length b.bytes = omega arith in
    rw (le→leb (pos + length (to_le width v)) (length b.bytes) fits, len) refl

-- A number that fits the width, patched over bytes that were written, is read where it was put; the
-- length, the bytes in front and the bytes behind stay.
pub patch-read :
    (width pos v : ℕ) (b : Buf)
    → pos + width ≤ length b.bytes
    → v % 256 ^ width ≡ v
    → (c : Buf) × (patch width pos v b ≡ ok c)
      × (length c.bytes ≡ length b.bytes)
      × (take pos c.bytes ≡ take pos b.bytes)
      × (drop (pos + width) c.bytes ≡ drop (pos + width) b.bytes)
      × (number (take_bytes width (record { image = c.bytes; pos = pos }))
          ≡ ok (v, record { image = c.bytes; pos = pos + width }))
unfolding patched
patch-read width pos v b h e =
    let head = take pos b.bytes in
    let tail = drop (pos + width) b.bytes in
    let front : length head ≡ pos = omega (arith, length-take pos b.bytes) in
    let image = patched width pos v b in
    (
      record { bytes = image },
      patch-patched width pos v b h,
      omega (
        arith,
        front,
        length-to_le width v,
        length-drop (pos + width) b.bytes,
        length-append head (to_le width v ++ tail),
        length-append (to_le width v) tail,
      ),
      ap (λ n. take n image) (sym front) ∙ take-append head (to_le width v ++ tail),
      drop-add pos width (pos + width) image refl
          ∙ ap (drop width)
              (ap (λ n. drop n image) (sym front) ∙ drop-append head (to_le width v ++ tail))
          ∙ ap (λ n. drop n (to_le width v ++ tail)) (sym (length-to_le width v))
          ∙ drop-append (to_le width v) tail,
      subst
          (λ n.
            number (take_bytes width (record { image = image; pos = n }))
            ≡ ok (v, record { image = image; pos = n + width }))
          front (number-middle width v head tail e),
    )
