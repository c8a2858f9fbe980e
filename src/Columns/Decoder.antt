-- ===== src/Columns/Decoder.antt =====
-- volodb-common/AttributeUtils/ColumnsValueDecoder.cpp. What a decoder may read of a column's value
-- is its bytes and the terminator that `std::string` keeps behind them.
use volo_db.Prelude.{
  ℕ, ◌+◌, ◌^◌, ℤ, Text, Bool, true, false, List, [], ◌∷◌, ◌++◌, drop, if◌then◌else◌, ◌==◌,
}
use volo_db.Prelude.Int.{of_word}
use volo_db.Prelude.Outcome.{Outcome, ok, undefined, ◌>>=◌}
use volo_db.Proto.Column.{ColumnValue}
use volo_db.Columns.Memory.{word_of, read_bytes}

abbrev pub memory_of : ColumnValue → List ℕ
memory_of column_value = column_value.value ++ 0 ∷ []

-- The read of an n-byte word through a cast of data().
unfoldable pub read_word : ℕ → ColumnValue → Outcome ℕ
read_word n column_value = do bytes ← read_bytes n (memory_of column_value); ok (word_of bytes)

-- getLength: two bytes, the low one first.
unfoldable pub get_length : ColumnValue → Outcome ℕ
unfolding read_word
get_length column_value = read_word 2 column_value

-- A byte that is neither 0 nor 1 is no value of a `bool`.
unfoldable pub get_bool : ColumnValue → Outcome Bool
unfolding read_word
get_bool column_value = do
  w ← read_word 1 column_value
  if w == 0 then ok false else if w == 1 then ok true else undefined

unfoldable pub get_int32 : ColumnValue → Outcome ℤ
unfolding read_word
get_int32 column_value = do w ← read_word 4 column_value; ok (of_word (2 ^ 31) w)

unfoldable pub get_uint32 : ColumnValue → Outcome ℕ
unfolding read_word
get_uint32 column_value = read_word 4 column_value

unfoldable pub get_int64 : ColumnValue → Outcome ℤ
unfolding read_word
get_int64 column_value = do w ← read_word 8 column_value; ok (of_word (2 ^ 63) w)

unfoldable pub get_uint64 : ColumnValue → Outcome ℕ
unfolding read_word
get_uint64 column_value = read_word 8 column_value

unfoldable pub get_float : ColumnValue → Outcome ℕ
unfolding read_word
get_float column_value = read_word 4 column_value

unfoldable pub get_double : ColumnValue → Outcome ℕ
unfolding read_word
get_double column_value = read_word 8 column_value

-- A copy of the bytes, in an array of the same size.
unfoldable pub get_char : ColumnValue → List ℕ
get_char column_value = column_value.value

-- One byte more is read than the length field says.
unfoldable pub get_var_char : ColumnValue → Outcome Text
get_var_char column_value = do
  n ← get_length column_value
  read_bytes (n + 1) (drop 2 (memory_of column_value))

unfoldable pub get_var_binary : ColumnValue → Outcome Text
unfolding get_var_char
get_var_binary column_value = get_var_char column_value
