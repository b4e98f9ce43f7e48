-- ===== src/Messages/Runs.antt =====
-- Runs of the messages.
use hdf5_rs.Prelude.{ℕ, ◌≡◌, refl, arith, List, [], ◌∷◌, true, false, none, some, Result, ok, panic}
use hdf5_rs.Arena.{Text, Link, external}
use hdf5_rs.Buffer.Parser.{Reads}
use hdf5_rs.Datatype.Names.{IsText, IsText-ascii}
use hdf5_rs.Messages.Space.{encode_dataspace, parse_dataspace}
use hdf5_rs.Messages.Pipeline.{
  NamedFilter, named_filter, encode_filter_pipeline, parse_filter_pipeline,
}
use hdf5_rs.Messages.Layout.{parse_layout}
use hdf5_rs.Messages.LinkMessage.{encode_link_message, open_link, parse_link_message}
use hdf5_rs.Messages.RoundTrip.Space.{parse_dataspace-encode_dataspace}
use hdf5_rs.Messages.RoundTrip.Pipeline.{parse_filter_pipeline-encode_filter_pipeline}
use hdf5_rs.Messages.RoundTrip.Links.{IsStoredLink, at_rest, parse_link_message-encode_link_message}

-- A table of 3 rows, which may grow, and 4 columns
parse_dataspace-encode_dataspace_example :
    Reads parse_dataspace
      (encode_dataspace (3 ∷ 4 ∷ []) (none ∷ some 4 ∷ []) false false)
      (3 ∷ 4 ∷ [], none ∷ some 4 ∷ [], false, false)
parse_dataspace-encode_dataspace_example =
    parse_dataspace-encode_dataspace (3 ∷ 4 ∷ []) (none ∷ some 4 ∷ []) false false
      (omega arith, omega arith, refl, (omega arith, (omega arith, tt)), (tt, (omega arith, tt)))

abbrev name_ab : Text
name_ab = b'a' ∷ b'b' ∷ []

name_ab-IsText : IsText name_ab
name_ab-IsText =
    IsText-ascii name_ab (omega arith, (omega arith, tt)) (omega arith, (omega arith, tt))

empty-IsText : IsText []
empty-IsText = IsText-ascii [] tt tt

abbrev two_filters : List NamedFilter
two_filters = named_filter 2 (8 ∷ []) name_ab ∷ named_filter 1 [] [] ∷ []

parse_filter_pipeline-encode_filter_pipeline_example :
    Reads parse_filter_pipeline (encode_filter_pipeline two_filters) two_filters
parse_filter_pipeline-encode_filter_pipeline_example =
    parse_filter_pipeline-encode_filter_pipeline two_filters (omega arith) (
      record {
        id = omega arith;
        count = omega arith;
        values = (omega arith, tt);
        name = name_ab-IsText;
        short = omega arith;
      },
      (
        record {
          id = omega arith;
          count = omega arith;
          values = tt;
          name = empty-IsText;
          short = omega arith;
        },
        tt,
      ),
    )

abbrev outside : Link
outside = record {
  name = name_ab;
  target = external name_ab name_ab;
  creation_order = 5;
  utf8 = true;
}

-- Objects that are known by their addresses
abbrev by_address : ℕ → ℕ → Result (ℕ × ℕ)
by_address addr seen = ok (addr, seen)

outside-IsStoredLink : IsStoredLink outside
outside-IsStoredLink = record {
  long = omega arith;
  utf8 = name_ab-IsText.utf8;
  target = (omega arith, name_ab-IsText, name_ab-IsText);
}

parse_link_message-encode_link_message_example :
    (body : List ℕ) × (encode_link_message outside (some 96) ≡ ok body)
    × (parse_link_message by_address body 0 ≡ open_link by_address (some (at_rest outside 96)) 0)
parse_link_message-encode_link_message_example =
    parse_link_message-encode_link_message by_address outside 96 0 outside-IsStoredLink
      (omega arith)

-- An external link whose target has no bytes: the slice behind the first byte panics.
abbrev external_empty : List ℕ
external_empty = 1 ∷ 0x08 ∷ 64 ∷ 1 ∷ b'a' ∷ 0 ∷ 0 ∷ []

parse_link_message_empty : parse_link_message by_address external_empty 0 ≡ panic
unfolding parse_link_message
parse_link_message_empty = refl

-- A layout whose dimensions have nine bytes
abbrev layout_wide : List ℕ
layout_wide = 4 ∷ 2 ∷ 0 ∷ 1 ∷ 9 ∷ 0 ∷ 0 ∷ 0 ∷ 0 ∷ 0 ∷ 0 ∷ 0 ∷ 0 ∷ 0 ∷ []

parse_layout_wide : parse_layout (record { image = layout_wide; pos = 0 }) ≡ panic
unfolding parse_layout
parse_layout_wide = refl
