-- ===== src/Examples/ParserRuns.antt =====
-- Runs of the parser of server/parser.c.
use ist_key_value_store.Prelude.{◌≡◌, refl, [], ◌∷◌, arith}
use ist_key_value_store.CString.{c_str}
use ist_key_value_store.Parser.{
  parse_write, parse_read_delete, cleanup, read_string, parse_pair, parse_pairs,
}
use ist_key_value_store.Parser.RoundTrip.{IsToken, pairs_text, parse_write-pairs_text}
use ist_key_value_store.Parser.Bounds.{PairFits, InBounds, parse_write_bounds}
use ist_key_value_store.Examples.Fixtures.{ant, bee, one}

ant-IsToken : IsToken ant
ant-IsToken = record { plain = ground arith; short = omega arith }

bee-IsToken : IsToken bee
bee-IsToken = record { plain = ground arith; short = omega arith }

one-IsToken : IsToken one
one-IsToken = record { plain = ground arith; short = omega arith }

-- `WRITE [(ant,1)(bee,1)]`
parse_write-pairs_text_example :
    parse_write 256 (b'[' ∷ b'(' ∷ pairs_text ((ant, one) ∷ (bee, one) ∷ []) (b'\n' ∷ b'S' ∷ []))
    ≡ ((ant, one) ∷ (bee, one) ∷ [], b'S' ∷ [])
parse_write-pairs_text_example =
    parse_write-pairs_text 256 (ant, one) ((bee, one) ∷ []) (b'S' ∷ []) (omega arith)
      ((ant-IsToken, one-IsToken), ((bee-IsToken, one-IsToken), tt))

parse_write_bounds_example :
    InBounds PairFits 256
      (parse_write 256 (b'[' ∷ b'(' ∷ pairs_text ((ant, one) ∷ []) (b'\n' ∷ []))).0
parse_write_bounds_example =
    parse_write_bounds 256 (b'[' ∷ b'(' ∷ pairs_text ((ant, one) ∷ []) (b'\n' ∷ []))

read_nothing : parse_read_delete 256 (b'[' ∷ b']' ∷ b'\n' ∷ b'S' ∷ []) ≡ ([] ∷ [], b'S' ∷ [])
unfolding parse_read_delete read_string c_str
read_nothing = refl

-- A pair without a value: the line behind it is lost too.
next_line_is_lost :
    parse_write 256
      (b'[' ∷ b'(' ∷ b'a' ∷ b')' ∷ b'\n' ∷ b'S' ∷ b'H' ∷ b'O' ∷ b'W' ∷ b'\n' ∷ b'B' ∷ [])
    ≡ ([], b'B' ∷ [])
unfolding parse_write parse_pairs parse_pair read_string cleanup
next_line_is_lost = refl
