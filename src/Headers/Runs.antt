-- ===== src/Headers/Runs.antt =====
-- Runs of object headers.
use hdf5_rs.Prelude.{
  ℕ, ◌^◌, ◌≡◌, refl, arith, List, [], ◌∷◌, ◌++◌, map, length, ◌<◌, none, ok, out_of_fuel,
}
use hdf5_rs.Buffer.{Buf, align8}
use hdf5_rs.Messages.{new_buf}
use hdf5_rs.Messages.Fill.{user_defined, encode_fill}
use hdf5_rs.Headers.{ObjHeader, empty_header, Callees, Progress}
use hdf5_rs.Headers.Scan.{parse_object_header}
use hdf5_rs.Headers.Write.{Message, write_object_header, write_object_header_v2}
use hdf5_rs.Headers.RoundTrip.Loop.{handle_all, codes}
use hdf5_rs.Headers.RoundTrip.First.{stored, head_code_v1}
use hdf5_rs.Headers.RoundTrip.Stored.{parse_object_header-write_object_header}
use hdf5_rs.Headers.RoundTrip.Written.{parse_object_header-write_object_header_v2}

-- A parser that numbers objects by their addresses and reads no attribute.
abbrev parts : Callees ℕ ℕ
parts = record {
  base = 0;
  open_object = λ addr s. ok (addr, s);
  parse_attribute = λ body s. ok (none, s);
  handle_shared_message = λ mtype body oh s. ok (oh, s);
}

abbrev message : ℕ → List ℕ → Message
message ty body = record { ty = ty; mflags = 0; body = body }

-- A fill value, and a message that nothing is known of
abbrev two_messages : List Message
two_messages = message 5 (2 ∷ 2 ∷ 0 ∷ 1 ∷ 1 ∷ 0 ∷ 0 ∷ 0 ∷ 7 ∷ []) ∷ message 0 (1 ∷ []) ∷ []

two_messages_fill : encode_fill (user_defined (7 ∷ [])) ≡ 2 ∷ 2 ∷ 0 ∷ 1 ∷ 1 ∷ 0 ∷ 0 ∷ 0 ∷ 7 ∷ []
unfolding encode_fill
two_messages_fill = refl

abbrev filled : ObjHeader ℕ
filled = record empty_header { fill = user_defined (7 ∷ []) }

abbrev handled : Progress ℕ ℕ
handled = record { header = filled; blocks = []; parser = 0 }

handled_lem :
    handle_all parts two_messages (record { header = empty_header; blocks = []; parser = 0 })
    ≡ ok handled
unfolding handle_all
handled_lem = refl

parse_object_header-write_object_header_v2_example :
    (r : ℕ × Buf) × (write_object_header_v2 two_messages new_buf ≡ ok r)
    × (parse_object_header parts ([] ++ (r.1.bytes ++ [])) 1 r.0 0 ≡ ok handled)
parse_object_header-write_object_header_v2_example =
    parse_object_header-write_object_header_v2 parts two_messages new_buf [] [] 0 0 handled
      (
        record { ty = omega arith; size = omega arith },
        (record { ty = omega arith; size = omega arith }, tt),
      )
      (omega arith) refl handled_lem refl

-- A continuation that leads to itself: however many rounds there are, they do not suffice.
abbrev circular : List ℕ
circular =
    b'O' ∷ b'H' ∷ b'D' ∷ b'R' ∷ 2 ∷ 0 ∷ 20 ∷ 16 ∷ 16 ∷ 0 ∷ 0 ∷ 31 ∷ 0 ∷ 0 ∷ 0 ∷ 0 ∷ 0 ∷ 0 ∷ 0 ∷ 28
    ∷ 0 ∷ 0 ∷ 0 ∷ 0 ∷ 0 ∷ 0 ∷ 0 ∷ 0 ∷ 0 ∷ 0 ∷ 0 ∷ b'O' ∷ b'C' ∷ b'H' ∷ b'K' ∷ 16 ∷ 16 ∷ 0 ∷ 0 ∷ 31
    ∷ 0 ∷ 0 ∷ 0 ∷ 0 ∷ 0 ∷ 0 ∷ 0 ∷ 28 ∷ 0 ∷ 0 ∷ 0 ∷ 0 ∷ 0 ∷ 0 ∷ 0 ∷ 0 ∷ 0 ∷ 0 ∷ 0 ∷ []

parse_object_header-circular : parse_object_header parts circular 5 0 0 ≡ out_of_fuel
unfolding parse_object_header
parse_object_header-circular = refl

handled_stored_lem :
    handle_all parts
      (map stored two_messages)
      (record { header = empty_header; blocks = []; parser = 0 })
    ≡ ok handled
unfolding handle_all align8
handled_stored_lem = refl

two_messages_short : length (codes head_code_v1 (map stored two_messages)) < 2 ^ 32
unfolding align8
two_messages_short = omega arith

parse_object_header-write_object_header_example :
    (r : ℕ × Buf) × (write_object_header two_messages new_buf ≡ ok r)
    × (parse_object_header parts ([] ++ (r.1.bytes ++ [])) 1 r.0 0 ≡ ok handled)
parse_object_header-write_object_header_example =
    parse_object_header-write_object_header parts two_messages new_buf [] [] 1 0 handled
      (
        record { ty = omega arith; size = omega arith },
        (record { ty = omega arith; size = omega arith }, tt),
      )
      (omega arith) two_messages_short refl handled_stored_lem refl
