-- ===== src/Virtual.antt =====
-- hdf5/src/format/vds.rs: the mappings of a virtual dataset and their selections, read from a block
-- of the global heap and written to one. Left out is the enumeration of a selection's positions.
pub mod Parse
pub mod Encode
pub mod Axes
pub mod RoundTrip
mod Runs
use hdf5_rs.Prelude.{ℕ, List, Option}
use hdf5_rs.Arena.{Text}

-- Along one axis; a count of `none` is unlimited.
pub record Regular : Type 0 where
  pub start : ℕ
  pub stride : ℕ
  pub count : Option ℕ
  pub block : ℕ

pub data SerSelection : Type 0 where
  all_selected : SerSelection
  none_selected : SerSelection
  regular : List Regular → SerSelection
  blocks : List (List ℕ × List ℕ) → SerSelection
  points : List (List ℕ) → SerSelection

pub record VdsMapping : Type 0 where
  pub source_file : Text
  pub source_dset : Text
  pub src_sel : SerSelection
  pub virt_sel : SerSelection
