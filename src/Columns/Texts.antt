-- ===== src/Columns/Texts.antt =====
-- ColumnsValueBuilder.cpp against ColumnsValueDecoder.cpp: texts, binary values and characters.
use volo_db.Prelude.{
  ℕ, zero, suc, ◌+◌, ◌-◌, ◌/◌, ◌%◌, ◌^◌, ◌≤◌, ◌<◌, ◌≡◌, refl, ap, Text, Bool, false, List, [], ◌∷◌,
  ◌++◌, append-nil, arith, length, length-append, replicate, length-replicate, take, leb, le→leb,
  lt→ltb,
}
use volo_db.Prelude.Outcome.{ok, undefined}
use volo_db.Proto.Column.{ColumnType, ColumnValue, char, varchar, varbinary}
use volo_db.Columns.Memory.{word_of, read_bytes, read_bytes-append}
use volo_db.Columns.Builder.{
  Columns, prepend_length, add_column_internal, add_char_column, add_var_char_column,
  add_var_binary_column,
}
use volo_db.Columns.Decoder.{get_char, get_var_char, get_var_binary, get_length}
use volo_db.Columns.RoundTrip.{Stores, column_of, add_column_internal-column_of}

module _ (columns : Columns) (name : Text) (is_primary_key is_distributed_key : Bool) where
  abbrev column : ColumnType → List ℕ → ColumnValue
  column = column_of columns name is_primary_key is_distributed_key

  take_all : (bytes : List ℕ) → take (length bytes) bytes ≡ bytes
  take_all [] = refl
  take_all (x ∷ xs) = ap (◌∷◌ x) (take_all xs)

  -- The buffer of a text that a uint16_t can count.
  prefixed : List ℕ → List ℕ
  prefixed value = (length value % 256) ∷ (length value / 256) ∷ value

  prepend_length-prefixed :
      (value : List ℕ)
      → length value < 2 ^ 16
      → prepend_length value (length value % 2 ^ 16) 2 ≡ prefixed value
  unfolding prepend_length prefixed
  prepend_length-prefixed value h =
      let small : length value % 2 ^ 16 ≡ length value = omega arith in
      rw small (rw (take_all value))

  get_length-prefixed :
      (type : ColumnType) (value : List ℕ)
      → get_length (column type (prefixed value)) ≡ ok (length value)
  unfolding get_length prefixed word_of
  get_length-prefixed type value =
      rw
        (read_bytes-append ((length value % 256) ∷ (length value / 256) ∷ []) (value ++ 0 ∷ []) 2
          refl)
        (ap ok (omega arith))

  get_var_char-prefixed :
      (type : ColumnType) (value : List ℕ)
      → get_var_char (column type (prefixed value)) ≡ ok (value ++ 0 ∷ [])
  unfolding get_var_char prefixed
  get_var_char-prefixed type value =
      let whole =
        read_bytes-append (value ++ 0 ∷ []) [] (length value + 1)
          (omega (arith, length-append value (0 ∷ []))) in
      rw (get_length-prefixed type value) (rw append-nil at whole)

  -- A text or binary value of fewer than 65536 bytes is read back with one byte more behind it, a
  -- zero: the decoder reads one byte past the length field.
  pub get_var_char-add_var_char_column :
      (value : List ℕ)
      → length value < 2 ^ 16
      → Stores
          (add_var_char_column columns name value is_primary_key is_distributed_key)
          columns
          get_var_char
          (value ++ 0 ∷ [])
        × Stores
            (add_var_binary_column columns name value is_primary_key is_distributed_key)
            columns
            get_var_binary
            (value ++ 0 ∷ [])
  unfolding add_var_char_column add_var_binary_column get_var_binary
  get_var_char-add_var_char_column value h = rw (prepend_length-prefixed value h) (
    (_, stored varchar, get_var_char-prefixed varchar value),
    (_, stored varbinary, get_var_char-prefixed varbinary value),
  )
    where
      stored :
          (type : ColumnType)
          → add_column_internal columns name type
              (prefixed value)
              (length value + 2)
              is_primary_key
              is_distributed_key
            ≡ ok (columns ++ column type (prefixed value) ∷ [])
      stored type =
          add_column_internal-column_of columns name is_primary_key is_distributed_key type
            (prefixed value) (length value + 2) (unfold prefixed in omega arith)

  length-take_le : (n : ℕ) (bytes : List ℕ) → length (take n bytes) ≤ n
  length-take_le zero bytes = omega arith
  length-take_le (suc n) [] = omega arith
  length-take_le (suc n) (x ∷ xs) = omega (arith, length-take_le n xs)

  -- A text or binary value of 65536 bytes or more is stored with an undefined outcome: the length
  -- wraps to 16 bits, and more bytes are read of the buffer than it has.
  pub add_var_char_column-undefined :
      (value : List ℕ)
      → 2 ^ 16 ≤ length value
      → (add_var_char_column columns name value is_primary_key is_distributed_key ≡ undefined)
        × (add_var_binary_column columns name value is_primary_key is_distributed_key ≡ undefined)
  unfolding add_var_char_column add_var_binary_column add_column_internal read_bytes prepend_length
  add_var_char_column-undefined value h =
      let short = length-take_le (length value % 2 ^ 16) value in
      let past : leb (length value + 2) (2 + length (take (length value % 2 ^ 16) value)) ≡ false =
        ground arith in
      (ground (arith, past), ground (arith, past))

  -- A character value that is no longer than the column is read back padded with spaces to the
  -- size of the column, which is not 0.
  pub get_char-add_char_column :
      (value : List ℕ) (size : ℕ)
      → 0 < size
      → length value ≤ size
      → Stores
          (add_char_column columns name value size is_primary_key is_distributed_key)
          columns
          (λ c. ok (get_char c))
          (value ++ replicate (size - length value) 32)
  unfolding add_char_column get_char
  get_char-add_char_column value size h fits =
      let padded : length (value ++ replicate (size - length value) 32) ≡ size = omega (
        arith,
        length-append value (replicate (size - length value) 32),
        length-replicate (size - length value) (let c : ℕ = 32 in c),
      ) in
      rw (lt→ltb _ _ h, le→leb _ _ fits)
        (
          _,
          add_column_internal-column_of columns name is_primary_key is_distributed_key char _ size
              padded,
          refl,
        )
