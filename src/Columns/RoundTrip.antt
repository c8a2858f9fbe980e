-- ===== src/Columns/RoundTrip.antt =====
-- ColumnsValueBuilder.cpp against ColumnsValueDecoder.cpp: what a decoder reads in a column that the
-- builder made.
use volo_db.Prelude.{
  ℕ, ◌^◌, ◌<◌, ◌≡◌, refl, ap, ℤ, Text, Bool, true, false, some, List, [], ◌∷◌, ◌++◌, append-nil,
  length,
}
use volo_db.Prelude.Int.{InRange, to_word, of_word-to_word, to_word-lt}
use volo_db.Prelude.Outcome.{Outcome, ok}
use volo_db.Proto.Column.{
  ColumnType, ColumnValue, bool, int32, uint32, int64, uint64, float, double,
}
use volo_db.Columns.Memory.{
  word_bytes, word_of, read_bytes, length-word_bytes, word_of-word_bytes, read_bytes-append,
}
use volo_db.Columns.Builder.{
  Columns, add_column_internal, add_bool_column, add_int32_column, add_uint32_column,
  add_int64_column, add_uint64_column, add_float_column, add_double_column,
}
use volo_db.Columns.Decoder.{
  read_word, get_bool, get_int32, get_uint32, get_int64, get_uint64, get_float, get_double,
}

-- The call of the builder appends one column, in which the decoder reads the value.
abbrev pub Stores {ℓ} :
    {A : Type ℓ} → Outcome Columns → Columns → (ColumnValue → Outcome A) → A → Type ℓ
Stores added columns get a = (c : ColumnValue) × (added ≡ ok (columns ++ c ∷ [])) × (get c ≡ ok a)

module _ (columns : Columns) (name : Text) (is_primary_key is_distributed_key : Bool) where
  abbrev pub column_of : ColumnType → List ℕ → ColumnValue
  column_of type bytes = record {
    name = name;
    type = some type;
    primary_key = some is_primary_key;
    distribution_key = some is_distributed_key;
    value = bytes;
  }

  pub add_column_internal-column_of :
      (type : ColumnType) (bytes : List ℕ) (size : ℕ)
      → length bytes ≡ size
      → add_column_internal columns name type bytes size is_primary_key is_distributed_key
        ≡ ok (columns ++ column_of type bytes ∷ [])
  unfolding add_column_internal
  add_column_internal-column_of type bytes size e =
      let whole = read_bytes-append bytes [] size e in rw (rw append-nil at whole)

  read_word-column_of :
      (type : ColumnType) (n w : ℕ)
      → w < 256 ^ n
      → read_word n (column_of type (word_bytes n w)) ≡ ok w
  unfolding read_word
  read_word-column_of type n w h =
      rw (read_bytes-append (word_bytes n w) (0 ∷ []) n (length-word_bytes n w))
        (ap ok (word_of-word_bytes n w h))

  word_column :
      (type : ColumnType) (n w : ℕ)
      → add_column_internal columns name type (word_bytes n w) n is_primary_key is_distributed_key
        ≡ ok (columns ++ column_of type (word_bytes n w) ∷ [])
  word_column type n w = add_column_internal-column_of type _ n (length-word_bytes n w)

  get_int32-add_int32_column :
      (z : ℤ)
      → InRange (2 ^ 31) z
      → Stores
          (add_int32_column columns name z is_primary_key is_distributed_key)
          columns
          get_int32
          z
  unfolding add_int32_column get_int32
  get_int32-add_int32_column z h = (
    column_of int32 (word_bytes 4 (to_word (2 ^ 31) z)),
    word_column int32 4 _,
    rw (read_word-column_of int32 4 (to_word (2 ^ 31) z) (to_word-lt (2 ^ 31) z h))
        (ap ok (of_word-to_word (2 ^ 31) z h)),
  )

  get_int64-add_int64_column :
      (z : ℤ)
      → InRange (2 ^ 63) z
      → Stores
          (add_int64_column columns name z is_primary_key is_distributed_key)
          columns
          get_int64
          z
  unfolding add_int64_column get_int64
  get_int64-add_int64_column z h = (
    column_of int64 (word_bytes 8 (to_word (2 ^ 63) z)),
    word_column int64 8 _,
    rw (read_word-column_of int64 8 (to_word (2 ^ 63) z) (to_word-lt (2 ^ 63) z h))
        (ap ok (of_word-to_word (2 ^ 63) z h)),
  )

  get_bool-add_bool_column :
      (b : Bool)
      → Stores (add_bool_column columns name b is_primary_key is_distributed_key) columns get_bool b
  unfolding add_bool_column get_bool read_bytes word_of
  get_bool-add_bool_column true = (_, add_column_internal-column_of bool (1 ∷ []) 1 refl, refl)
  get_bool-add_bool_column false = (_, add_column_internal-column_of bool (0 ∷ []) 1 refl, refl)

  -- Every fixed-size value that its type can hold is read back from the column that it was stored
  -- in, and the columns that were there stay: a `bool`, the four integer types, and a `float` and a
  -- `double` as the words that they are stored as.
  pub get-add_fixed_column :
      (b : Bool) (z32 z64 : ℤ) (w32 w64 : ℕ)
      → InRange (2 ^ 31) z32
      → InRange (2 ^ 63) z64
      → w32 < 256 ^ 4
      → w64 < 256 ^ 8
      → Stores (add_bool_column columns name b is_primary_key is_distributed_key) columns get_bool b
        × Stores
            (add_int32_column columns name z32 is_primary_key is_distributed_key)
            columns
            get_int32
            z32
        × Stores
            (add_uint32_column columns name w32 is_primary_key is_distributed_key)
            columns
            get_uint32
            w32
        × Stores
            (add_int64_column columns name z64 is_primary_key is_distributed_key)
            columns
            get_int64
            z64
        × Stores
            (add_uint64_column columns name w64 is_primary_key is_distributed_key)
            columns
            get_uint64
            w64
        × Stores
            (add_float_column columns name w32 is_primary_key is_distributed_key)
            columns
            get_float
            w32
        × Stores
            (add_double_column columns name w64 is_primary_key is_distributed_key)
            columns
            get_double
            w64
  unfolding add_uint32_column add_uint64_column add_float_column add_double_column get_uint32
      get_uint64 get_float get_double
  get-add_fixed_column b z32 z64 w32 w64 h32 h64 k32 k64 = (
    get_bool-add_bool_column b,
    get_int32-add_int32_column z32 h32,
    (_, word_column uint32 4 w32, read_word-column_of uint32 4 w32 k32),
    get_int64-add_int64_column z64 h64,
    (_, word_column uint64 8 w64, read_word-column_of uint64 8 w64 k64),
    (_, word_column float 4 w32, read_word-column_of float 4 w32 k32),
    (_, word_column double 8 w64, read_word-column_of double 8 w64 k64),
  )
