-- ===== src/Columns/Builder.antt =====
-- volodb-common/AttributeUtils/ColumnsValueBuilder.cpp. The builder's state is its `_columns`; a
-- `float` or `double` is given by the word that it is stored as.
use volo_db.Prelude.{
  ℕ, ◌+◌, ◌-◌, ◌/◌, ◌%◌, ◌^◌, ℤ, Text, Bool, ◌&&◌, some, List, [], ◌∷◌, ◌++◌, length, take,
  replicate, leb, ltb, ◌==◌, if◌then◌else◌,
}
use volo_db.Prelude.Int.{to_word}
use volo_db.Prelude.Outcome.{Outcome, ok, undefined, ◌>>=◌}
use volo_db.Proto.Column.{
  ColumnType, ColumnValue, bool, int32, uint32, int64, uint64, float, double, char, varchar,
  varbinary,
}
use volo_db.Proto.Operation.{SetOperation}
use volo_db.Columns.Memory.{word_bytes, read_bytes}

abbrev pub Columns : Type 0
Columns = List ColumnValue

abbrev pub length_size_for_prepend : ℕ
length_size_for_prepend = 2

-- _prependLength, for a length that a uint16_t holds and the sizes 1 and 2 of the length field.
unfoldable pub prepend_length : List ℕ → ℕ → ℕ → List ℕ
prepend_length bytes n length_size =
    if length_size == 1 then (n % 256) ∷ take n bytes else (n % 256) ∷ (n / 256) ∷ take n bytes

-- _addColumnInternal: `size` bytes are read from the buffer `value`.
unfoldable pub add_column_internal :
    Columns → Text → ColumnType → List ℕ → ℕ → Bool → Bool → Outcome Columns
add_column_internal columns name type value size is_primary_key is_distributed_key = do
  bytes ← read_bytes size value
  ok (
      columns
      ++ record {
        name = name;
        type = some type;
        primary_key = some is_primary_key;
        distribution_key = some is_distributed_key;
        value = bytes;
      }
        ∷ [])

module _ (columns : Columns) (name : Text) where
  -- The object representation of a `bool`.
  unfoldable pub bool_bytes : Bool → List ℕ
  bool_bytes value = (if value then 1 else 0) ∷ []

  unfoldable pub add_bool_column : Bool → Bool → Bool → Outcome Columns
  unfolding add_column_internal bool_bytes
  add_bool_column value = add_column_internal columns name bool (bool_bytes value) 1

  unfoldable pub add_int32_column : ℤ → Bool → Bool → Outcome Columns
  unfolding add_column_internal
  add_int32_column value =
      add_column_internal columns name int32 (word_bytes 4 (to_word (2 ^ 31) value)) 4

  unfoldable pub add_uint32_column : ℕ → Bool → Bool → Outcome Columns
  unfolding add_column_internal
  add_uint32_column value = add_column_internal columns name uint32 (word_bytes 4 value) 4

  unfoldable pub add_int64_column : ℤ → Bool → Bool → Outcome Columns
  unfolding add_column_internal
  add_int64_column value =
      add_column_internal columns name int64 (word_bytes 8 (to_word (2 ^ 63) value)) 8

  unfoldable pub add_uint64_column : ℕ → Bool → Bool → Outcome Columns
  unfolding add_column_internal
  add_uint64_column value = add_column_internal columns name uint64 (word_bytes 8 value) 8

  unfoldable pub add_float_column : ℕ → Bool → Bool → Outcome Columns
  unfolding add_column_internal
  add_float_column value = add_column_internal columns name float (word_bytes 4 value) 4

  unfoldable pub add_double_column : ℕ → Bool → Bool → Outcome Columns
  unfolding add_column_internal
  add_double_column value = add_column_internal columns name double (word_bytes 8 value) 8

  -- `value` is the C string without its terminator. `undefined` is an array of no element, or a
  -- copy past the array's end.
  unfoldable pub add_char_column : List ℕ → ℕ → Bool → Bool → Outcome Columns
  unfolding add_column_internal
  add_char_column value size is_primary_key is_distributed_key =
      if ltb 0 size && leb (length value) size
      then add_column_internal columns name char (value ++ replicate (size - length value) 32) size
          is_primary_key is_distributed_key
      else undefined

  -- The length goes to _prependLength as a uint16_t; the size of the buffer read does not.
  unfoldable pub add_var_char_column : List ℕ → Bool → Bool → Outcome Columns
  unfolding add_column_internal prepend_length
  add_var_char_column value =
      add_column_internal columns name varchar
        (prepend_length value (length value % 2 ^ 16) length_size_for_prepend)
        (length value + length_size_for_prepend)

  -- `value` is the buffer of `size` bytes that the caller passes.
  unfoldable pub add_var_binary_column : List ℕ → Bool → Bool → Outcome Columns
  unfolding add_column_internal prepend_length
  add_var_binary_column value =
      add_column_internal columns name varbinary
        (prepend_length value (length value % 2 ^ 16) length_size_for_prepend)
        (length value + length_size_for_prepend)

-- SetPrimaryKeys and SetValues at a SetOperation, and PopulateKeys and PopulateValues of
-- OperationUtils: the columns go to the end of what is there.
unfoldable pub populate_keys : SetOperation → List ColumnValue → SetOperation
populate_keys operation keys = record operation { primary_key = operation.primary_key ++ keys }

unfoldable pub populate_values : SetOperation → List ColumnValue → SetOperation
populate_values operation values = record operation { value = operation.value ++ values }
