-- ===== src/Lib.antt =====
-- A model of hdf5-rs, an implementation of HDF5 in Rust, with the theorems that make it correct.
--
-- The program reads a file image into an arena of objects and writes it back; a dataset's bytes go
-- through a pipeline of filters, chunk by chunk, and a client names the elements that it wants by a
-- selection. Modelled are the arena with the operations of groups, the datatype messages, the
-- filters with the codec of szip, the messages and the headers of objects, the selections, the grid of chunks, the extents, the byte writer
-- and reader, and the checksum of metadata.
--
-- Filters (hdf5/src/format/filters.rs). Filters.Pipeline is `apply`, `reverse` and
-- `reverse_masked`; a child of Filters stands for each filter: Shuffle (`shuffle`, `unshuffle`),
-- Fletcher (`fletcher32`), Lzf (`lzf_compress`, `lzf_decompress`), BitStream (`unpack_bits`), NBit
-- (`nbit_decompress`) and ScaleOffset (`scaleoffset_decompress`, and in its child Encode
-- `scaleoffset_compress`). flate2's zlib and the codecs of blosc and szip, which the pipeline
-- calls, are the record `Codecs`; of zlib the round trip of a pipeline needs `CodecLaws`, of blosc
-- and szip nothing is assumed. Arithmetic on floats is the record `Floats`.
--
-- Selection (hdf5/src/hl/selection.rs). `SliceOrIndex`, `RawSlice`, `RawSelection` and `Selection`
-- are the types of the source, `slice_info_to_raw`, `hyperslab_into_raw`, `into_raw`,
-- `out_shape` and `check_coords` the functions. Selection.Linear is `RawSelection::linear_indices`
-- with its helpers: `row_major_strides`, the coordinates of an axis and the odometer over the axes.
-- A table of points is a list of rows with its number of columns.
--
-- Chunks (hdf5/src/hl/chunks.rs) is the arithmetic of `Dataset::chunk_info`, on the dimensions that
-- the dataset holds. Its strides are those of Selection.Linear. Its child Copy is `gather_chunk` and
-- `scatter_chunk` of the writer and the reader, each with its own computation of indices; Place
-- describes both by coordinates.
--
-- Buffer (hdf5/src/format/mod.rs) is `align8`, `align_up`, the writer `Buf` and the reader
-- `Cursor`, whose methods are functions from the old state to the new one. Its children Align,
-- Fields and Patch hold the laws.
--
-- Extents (hdf5/src/hl/extents.rs) is the types of a dataspace's sizes and their predicates, with
-- `extents` and `num_elements` of a dataset (hdf5/src/model.rs).
--
-- Checksum (hdf5/src/format/checksum.rs) is `checksum`, with `mix` as six steps of three lines.
--
-- Arena (hdf5/src/model.rs) is `FileState` with its objects; a child stands for `resolve` (Paths),
-- `path_of` (Search) and `recount` (Recount). An id is a position in the list of objects. Counts
-- states what exact counts of hard links are.
--
-- Groups (hdf5/src/hl/group.rs) is the operations of a group that change the arena, each from a
-- state to a state with a result, since an error may come after a change: `create_group`,
-- `link_soft`, `link_hard`, `link_external`, and in the child Removal `unlink`, `relink` and
-- `link_exists`.
--
-- Datatype (hdf5-types/src/h5type.rs and hdf5/src/format/datatype.rs) is the descriptors of types,
-- their messages (Encode and Decode) and the reading of names (Names). Code that reads with a
-- cursor is a Buffer.Parser, code that appends to a buffer a function of it (Buffer.Writing).
--
-- Szip (hdf5/src/format/szip.rs) is `sz_compress` and `sz_decompress`; BitIo is the streams of bits,
-- Encode and Decode are `aec_encode` and `aec_decode`, whose mapping of differences is Mapping.
--
-- Messages (hdf5/src/format/reader.rs and writer.rs) is the messages of an object header, a child for
-- each kind with what encodes it and what parses it: Space, Pipeline, Layout, Fill, LinkMessage, and
-- Info for the small ones. Headers is the header around them: `handle_message` and, in its children,
-- `parse_object_header` (Scan, Heads) and `write_object_header` (Write) with both versions. Of the
-- parser, a header needs `parse_object`, `parse_attribute` and `handle_shared_message`, which are
-- the record `Callees`; messages that are shared are not written.
--
-- Virtual (hdf5/src/format/vds.rs) is the mappings of a virtual dataset, read by `parse_vds_blob`
-- (Parse) and written by `encode_vds_blob` (Encode).
--
-- Fallible code returns a `Result` (Prelude): `ok`, `err` with the fixed words of the message,
-- `panic` where an index, a slice or a division of the code would panic, and `out_of_fuel`, which
-- is no result of the code. Numbers are natural numbers; wrap-around of a machine word is written
-- out (`% 2 ^ 32`). `usize` has 64 bits and is taken to be wide enough for positions and products of
-- dimensions, but for the products that `decode` of a datatype and `nbit_decompress` take from a
-- file, and what `gather_chunk` and `scatter_chunk` compute of coordinates, which panic. Whether
-- the assertion of `aec_decode` is checked is an argument of its model.
--
-- Fuel. The loops of `lzf_decompress` and `lzf_compress` take at least a byte of their input in a
-- round, and so have the length of the input as fuel; that this is enough is part of the theorems
-- on them. The loop over blocks of `checksum` takes 12 bytes in a round and has the length, too.
-- `resolve` follows soft links without a bound in the source; its fuel is the depth of links that
-- lead to links, and the theorems on it need no more than one. `path_of` has the number of objects
-- and one, `decode` of a datatype the bytes of the file and one, since each nested type starts
-- behind the one around it, and the decoder of szip the bits of its stream and one; that these are
-- enough is part of the theorems. A header of version 2 follows continuations without a bound in
-- the source; the model takes the number of rounds as an argument, and one round is enough for what
-- is written. All other loops count up to a bound known when they start.
--
-- Not modelled: the body of blosc.rs; of the reader and the writer of whole files the superblock,
-- the symbol tables, B-trees and heaps, attributes and the walk over all chunks; the conversion of values,
-- the positions that the selection of a virtual dataset has, and the handles of the API. In the
-- pipeline the codec of szip is a field of `Codecs`. Formatting of values for output has no theorem
-- worth stating.
pub mod Prelude
pub mod Arena
pub mod Buffer
pub mod Checksum
pub mod Chunks
pub mod Datatype
pub mod Extents
pub mod Filters
pub mod Groups
pub mod Headers
pub mod Messages
pub mod Selection
pub mod Szip
pub mod Virtual
