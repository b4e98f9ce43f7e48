-- ===== src/Virtual/Runs.antt =====
-- Runs of the block of mappings.
use hdf5_rs.Prelude.{ℕ, ◌≡◌, refl, arith, List, [], ◌∷◌, none, ok, panic}
use hdf5_rs.Arena.{Text}
use hdf5_rs.Datatype.Names.{IsText, IsText-ascii}
use hdf5_rs.Virtual.{all_selected, regular, VdsMapping}
use hdf5_rs.Virtual.Parse.{parse_vds_blob}
use hdf5_rs.Virtual.Encode.{encode_vds_blob}
use hdf5_rs.Virtual.RoundTrip.{IsMapping, parse_vds_blob-encode_vds_blob}

abbrev name_x : Text
name_x = b'x' ∷ []

name_x-IsText : IsText name_x
name_x-IsText = IsText-ascii name_x (omega arith, tt) (omega arith, tt)

abbrev endless_rows : VdsMapping
endless_rows = record {
  source_file = name_x;
  source_dset = name_x;
  src_sel = all_selected;
  virt_sel = regular (record { start = 2; stride = 3; count = none; block = 1 } ∷ []);
}

endless_rows-IsMapping : IsMapping endless_rows
endless_rows-IsMapping = record {
  file = name_x-IsText;
  dset = name_x-IsText;
  src = tt;
  virt = (
    omega arith,
    (
      record {
        start = omega arith;
        stride = omega arith;
        step = omega arith;
        count = tt;
        block = omega arith;
      },
      tt,
    ),
  );
}

parse_vds_blob-encode_vds_blob_example :
    (blob : List ℕ) × (encode_vds_blob (endless_rows ∷ []) ≡ ok blob)
    × (parse_vds_blob blob ≡ ok (endless_rows ∷ []))
parse_vds_blob-encode_vds_blob_example =
    parse_vds_blob-encode_vds_blob (endless_rows ∷ []) (omega arith) (endless_rows-IsMapping, tt)

-- A list of points that says its numbers have nine bytes: a slice that does not fit panics.
abbrev wide_points : List ℕ
wide_points =
    0 ∷ 1 ∷ 0 ∷ 0 ∷ 0 ∷ 0 ∷ 0 ∷ 0 ∷ 0 ∷ 0 ∷ 0 ∷ 1 ∷ 0 ∷ 0 ∷ 0 ∷ 2 ∷ 0 ∷ 0 ∷ 0 ∷ 9 ∷ 1 ∷ 0 ∷ 0 ∷ 0
    ∷ 0 ∷ 0 ∷ 0 ∷ 0 ∷ 0 ∷ 0 ∷ 0 ∷ 0 ∷ 0 ∷ []

parse_vds_blob_wide : parse_vds_blob wide_points ≡ panic
unfolding parse_vds_blob
parse_vds_blob_wide = refl
