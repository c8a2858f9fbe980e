-- ===== src/Tests/Stored.antt =====
-- Columns that are stored and read back, at values of each type.
use volo_db.Prelude.{
  ℕ, ◌≡◌, negsuc, pos, Text, true, false, [], ◌∷◌, ◌++◌, codes, arith, replicate, length-replicate,
}
use volo_db.Prelude.Outcome.{ok, undefined}
use volo_db.Columns.Builder.{
  add_bool_column, add_int32_column, add_uint32_column, add_int64_column, add_uint64_column,
  add_float_column, add_double_column, add_char_column, add_var_char_column, add_var_binary_column,
}
use volo_db.Columns.Decoder.{
  get_bool, get_int32, get_uint32, get_int64, get_uint64, get_float, get_double, get_char,
  get_var_char, get_var_binary,
}
use volo_db.Columns.RoundTrip.{Stores, get-add_fixed_column}
use volo_db.Columns.Texts.{
  get_var_char-add_var_char_column, add_var_char_column-undefined, get_char-add_char_column,
}
use volo_db.Tests.Requests.{key}

abbrev age : Text
age = codes "age"

get-add_fixed_column_example :
    Stores (add_bool_column (key ∷ []) age true false false) (key ∷ []) get_bool true
    × Stores
        (add_int32_column (key ∷ []) age (negsuc 4) false false)
        (key ∷ [])
        get_int32
        (negsuc 4)
    × Stores (add_uint32_column (key ∷ []) age 70000 false false) (key ∷ []) get_uint32 70000
    × Stores (add_int64_column (key ∷ []) age (pos 9) false false) (key ∷ []) get_int64 (pos 9)
    × Stores
        (add_uint64_column (key ∷ []) age 5000000000 false false)
        (key ∷ [])
        get_uint64
        5000000000
    × Stores (add_float_column (key ∷ []) age 70000 false false) (key ∷ []) get_float 70000
    × Stores
        (add_double_column (key ∷ []) age 5000000000 false false)
        (key ∷ [])
        get_double
        5000000000
get-add_fixed_column_example =
    get-add_fixed_column (key ∷ []) age false false true (negsuc 4) (pos 9) 70000 5000000000
      (omega arith) (omega arith) (omega arith) (omega arith)

get_var_char-add_var_char_column_example :
    Stores
      (add_var_char_column (key ∷ []) age (codes "hi") false false)
      (key ∷ [])
      get_var_char
      (codes "hi" ++ 0 ∷ [])
    × Stores
        (add_var_binary_column (key ∷ []) age (codes "hi") false false)
        (key ∷ [])
        get_var_binary
        (codes "hi" ++ 0 ∷ [])
get_var_char-add_var_char_column_example =
    get_var_char-add_var_char_column (key ∷ []) age false false (codes "hi") (omega arith)

add_var_char_column-undefined_example :
    (add_var_char_column [] age (replicate 65536 97) false false ≡ undefined)
    × (add_var_binary_column [] age (replicate 65536 97) false false ≡ undefined)
add_var_char_column-undefined_example =
    add_var_char_column-undefined [] age false false (replicate 65536 97)
      (omega (arith, length-replicate {A = ℕ} 65536 97))

get_char-add_char_column_example :
    Stores
      (add_char_column (key ∷ []) age (codes "hi") 4 false false)
      (key ∷ [])
      (λ c. ok (get_char c))
      (codes "hi  ")
get_char-add_char_column_example =
    get_char-add_char_column (key ∷ []) age false false (codes "hi") 4 (omega arith) (omega arith)
