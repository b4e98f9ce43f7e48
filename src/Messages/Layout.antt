-- ===== src/Messages/Layout.antt =====
-- The message of a layout: `parse_layout`, and the layouts that `write_dataset` writes.
use hdf5_rs.Prelude.{
  ℕ, ◌+◌, ◌-◌, ◌%◌, ◌^◌, List, ◌||◌, ◌==◌, bit_and, if◌then◌else◌, Option, none, some,
}
use hdf5_rs.Buffer.{u8, u32, u64, take_bytes, read_u8, read_u16, read_u32, read_u64, read_uint}
use hdf5_rs.Buffer.Parser.{Parser, ◌>>=◌, ◌>>◌, pure, fail, pass}
use hdf5_rs.Buffer.Writing.{◌then◌}
use hdf5_rs.Buffer.Series.{write_each, read_each}
use hdf5_rs.Messages.{new_buf}

pub data ChunkIndex : Type 0 where
  btree_v1 : (addr : ℕ) → ChunkIndex
  single : (addr : ℕ) (filtered_size : Option ℕ) (filter_mask : ℕ) → ChunkIndex
  implicit : (addr : ℕ) → ChunkIndex
  fixed_array : (header_addr : ℕ) → ChunkIndex
  ext_array : (header_addr : ℕ) → ChunkIndex
  btree_v2 : (header_addr : ℕ) → ChunkIndex

pub data RawLayout : Type 0 where
  compact : List ℕ → RawLayout
  contiguous : (addr size : ℕ) → RawLayout
  chunked : ChunkIndex → (chunk_dims : List ℕ) → RawLayout
  virtual_at : (gh_addr gh_idx : ℕ) → RawLayout

-- The sized bytes of a compact layout
unfoldable pub parse_compact : Parser ℕ → Parser RawLayout
unfolding take_bytes
parse_compact read_size c = (read_size >>= λ size. take_bytes size >>= λ s. pure (compact s)) c

unfoldable pub parse_contiguous : Parser RawLayout
unfolding read_u64
parse_contiguous c = (read_u64 >>= λ addr. read_u64 >>= λ size. pure (contiguous addr size)) c

-- Versions 1 and 2
unfoldable pub parse_old_class : (rank class : ℕ) → Parser RawLayout
unfolding parse_compact read_u32 read_u64 read_each
parse_old_class rank class =
    if class == 0
    then (read_each read_u32 rank >> parse_compact read_u32)
    else (if class == 1
        then (read_u64 >>= λ addr. read_each read_u32 rank >> pure (contiguous addr (2 ^ 64 - 1)))
        else (if class == 2
            then (read_u64 >>= λ btree. read_each read_u32 rank >>= λ chunk_dims.
                pure (chunked (btree_v1 btree) chunk_dims))
            else fail "unknown layout class"))

unfoldable pub parse_old : Parser RawLayout
unfolding read_u8 parse_old_class
parse_old c = (read_u8 >>= λ rank. read_u8 >>= λ class. pass 5 >> parse_old_class rank class) c

-- Version 3
unfoldable pub parse_chunked : Parser RawLayout
unfolding read_u8 read_u32 read_u64 read_each
parse_chunked = do
  ndims ← read_u8
  btree ← read_u64
  chunk_dims ← read_each read_u32 ndims
  pure (chunked (btree_v1 btree) chunk_dims)

unfoldable pub parse_class : ℕ → Parser RawLayout
unfolding read_u16 parse_compact parse_contiguous parse_chunked
parse_class class =
    if class == 0
    then parse_compact read_u16
    else (if class == 1
        then parse_contiguous
        else (if class == 2 then parse_chunked else fail "unknown layout class"))

-- A single chunk: if it is filtered, its size and mask stand before the address.
unfoldable pub parse_single : ℕ → Parser ChunkIndex
unfolding read_u32 read_u64 read_uint
parse_single flags =
    if bit_and flags 0x02 == 0
    then (read_u64 >>= λ addr. pure (single addr none 0))
    else (read_uint 8 >>= λ size.
        read_u32 >>= λ mask. read_u64 >>= λ addr. pure (single addr (some (size % 2 ^ 32)) mask))

-- `match index_type`
unfoldable pub parse_index : (flags index_type : ℕ) → Parser ChunkIndex
unfolding read_u8 read_u64 parse_single
parse_index flags index_type =
    if index_type == 1
    then parse_single flags
    else (if index_type == 2
        then (read_u64 >>= λ addr. pure (implicit addr))
        else (if index_type == 3
            then (read_u8 >> (read_u64 >>= λ addr. pure (fixed_array addr)))
            else (if index_type == 4
                then (pass 5 >> (read_u64 >>= λ addr. pure (ext_array addr)))
                else (if index_type == 5
                    then (pass 6 >> (read_u64 >>= λ addr. pure (btree_v2 addr)))
                    else fail "unknown chunk index type"))))

unfoldable pub parse_indexed : Parser RawLayout
unfolding read_u8 read_uint read_each parse_index
parse_indexed = do
  flags ← read_u8
  ndims ← read_u8
  enc_size ← read_u8
  chunk_dims ← read_each (read_uint enc_size) ndims
  index_type ← read_u8
  index ← parse_index flags index_type
  pure (chunked index chunk_dims)

-- Versions 4 and 5
unfoldable pub parse_new_class : ℕ → Parser RawLayout
unfolding read_u16 read_u32 read_u64 parse_compact parse_contiguous parse_indexed
parse_new_class class =
    if class == 0
    then parse_compact read_u16
    else (if class == 3
        then (read_u64 >>= λ gh_addr. read_u32 >>= λ gh_idx. pure (virtual_at gh_addr gh_idx))
        else (if class == 1
            then parse_contiguous
            else (if class == 2 then parse_indexed else fail "unknown layout class")))

-- `match version`
unfoldable pub parse_layout_version : ℕ → Parser RawLayout
unfolding read_u8 parse_old parse_class parse_new_class
parse_layout_version version =
    if version == 1 || version == 2
    then parse_old
    else (if version == 3
        then (read_u8 >>= parse_class)
        else (if version == 4 || version == 5
            then (read_u8 >>= parse_new_class)
            else fail "unsupported layout version"))

unfoldable pub parse_layout : Parser RawLayout
unfolding read_u8 parse_layout_version
parse_layout c = (read_u8 >>= parse_layout_version) c

-- The messages that `write_dataset` builds once the data is placed
unfoldable pub layout_virtual : ℕ → List ℕ
layout_virtual gcol = ((u8 4 then u8 3 then u64 gcol then u32 1) new_buf).bytes

unfoldable pub layout_contiguous : (data_addr size : ℕ) → List ℕ
layout_contiguous data_addr size = ((u8 3 then u8 1 then u64 data_addr then u64 size) new_buf).bytes

unfoldable pub layout_chunked : (btree rank : ℕ) → (chunk_dims : List ℕ) → (elem_size : ℕ) → List ℕ
unfolding write_each
layout_chunked btree rank chunk_dims elem_size =
    ((u8 3
        then u8 2
        then u8 ((rank + 1) % 2 ^ 8)
        then u64 btree
        then write_each (λ c. u32 (c % 2 ^ 32)) chunk_dims
        then u32 (elem_size % 2 ^ 32))
      new_buf).bytes
