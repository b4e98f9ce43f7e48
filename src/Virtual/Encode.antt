-- ===== src/Virtual/Encode.antt =====
-- `encode_selection` and `encode_vds_blob`.
use hdf5_rs.Prelude.{
  ℕ, ◌-◌, ◌^◌, max, List, [], ◌∷◌, length, Option, none, some, Result, ok, err, ◌>>=◌,
}
use hdf5_rs.Buffer.{Buf, raw, u8, u32, u64}
use hdf5_rs.Buffer.Writing.{◌then◌}
use hdf5_rs.Checksum.{checksum}
use hdf5_rs.Virtual.{
  Regular, SerSelection, all_selected, none_selected, regular, blocks, points, VdsMapping,
}

-- `unwrap_or(u64::MAX)`
abbrev pub count_or_max : Option ℕ → ℕ
count_or_max none = 2 ^ 64 - 1
count_or_max (some c) = c

unfoldable pub encode_axes : List Regular → Buf → Buf
encode_axes [] b = b
encode_axes (a ∷ rest) b =
    encode_axes rest
      ((u64 a.start then u64 (max a.stride 1) then u64 (count_or_max a.count) then u64 a.block) b)

unfoldable pub encode_whole : ℕ → Buf → Buf
encode_whole sel_type = u32 sel_type then u32 1 then u32 0 then u32 0

unfoldable pub encode_slab : List Regular → Buf → Buf
unfolding encode_axes
encode_slab axes =
    u32 2 then u32 2 then u8 0x01 then u32 0 then u32 (length axes) then encode_axes axes

abbrev pub empty : Buf
empty = record { bytes = [] }

unfoldable pub encode_selection : SerSelection → Result (List ℕ)
unfolding encode_whole encode_slab
encode_selection all_selected = ok (encode_whole 3 empty).bytes
encode_selection none_selected = ok (encode_whole 0 empty).bytes
encode_selection (regular axes) = ok (encode_slab axes empty).bytes
encode_selection (blocks bs) = err "only ALL and regular hyperslab selections can be written"
encode_selection (points ps) = err "only ALL and regular hyperslab selections can be written"

unfoldable pub encode_mapping : VdsMapping → Buf → Result Buf
unfolding encode_selection
encode_mapping m b = do
  src ← encode_selection m.src_sel
  virt ← encode_selection m.virt_sel
  ok (raw virt (raw src (u8 0 (raw m.source_dset (u8 0 (raw m.source_file b))))))

unfoldable pub encode_mappings : List VdsMapping → Buf → Result Buf
unfolding encode_mapping
encode_mappings [] b = ok b
encode_mappings (m ∷ ms) b = encode_mapping m b >>= λ b'. encode_mappings ms b'

unfoldable pub encode_vds_blob : List VdsMapping → Result (List ℕ)
unfolding encode_mappings checksum
encode_vds_blob ms = do
  b ← encode_mappings ms ((u8 0 then u64 (length ms)) empty)
  ok (u32 (checksum b.bytes) b).bytes
