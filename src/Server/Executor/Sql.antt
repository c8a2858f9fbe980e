-- ===== src/Server/Executor/Sql.antt =====
-- volodbserver/Store/NDBMessageExecutor.cpp: the SQL text of the definition operations.
pub mod CreateTable
use volo_db.Prelude.{
  ℕ, suc, ◌+◌, ℤ, pos, negsuc, Text, Bool, true, false, Option, none, some, List, [], ◌∷◌, ◌++◌,
  codes, get_elem?, length, ltb, ◌==◌, is_some, if◌then◌else◌,
}
use volo_db.Prelude.Decimal.{to_string}
use volo_db.Prelude.Outcome.{Outcome, ok, undefined, ◌>>=◌}
use volo_db.Proto.Column.{
  ColumnType, ColumnInfo, bool, int32, uint32, int64, uint64, float, double, char, varchar,
  varbinary,
}
use volo_db.Proto.Operation.{CreateStoreOperation}

-- getTypeName.
unfoldable pub get_type_name : ColumnType → Text
get_type_name bool = codes "Tinyint"
get_type_name int32 = codes "Int"
get_type_name uint32 = codes "Int Unsigned"
get_type_name int64 = codes "Bigint"
get_type_name uint64 = codes "Bigint Unsigned"
get_type_name float = codes "Float"
get_type_name double = codes "Double"
get_type_name char = codes "Char"
get_type_name varchar = codes "Varchar"
get_type_name varbinary = codes "Varbinary"

-- `length < 255 ? 256 : length`.
unfoldable pub var_length : ℤ → ℤ
var_length (pos n) = if ltb n 255 then pos 256 else pos n
var_length (negsuc n) = pos 256

-- The length behind the type's name, for the types that have one.
unfoldable pub length_text : ColumnType → Option ℤ → Text
unfolding var_length to_string
length_text type none = []
length_text varchar (some n) = codes "(" ++ (to_string (var_length n) ++ codes ")")
length_text varbinary (some n) = codes "(" ++ (to_string (var_length n) ++ codes ")")
length_text char (some n) = codes "(" ++ (to_string n ++ codes ")")
length_text _ (some n) = []

unfoldable pub column_text : ColumnInfo → Text
unfolding get_type_name length_text
column_text column =
    column.name
    ++ (codes " "
        ++ (get_type_name column.type
            ++ (length_text column.type column.length ++ codes " NOT NULL, \n")))

-- What the loop over the columns builds.
pub record Scan : Type 0 where
  pub text : Text
  pub primary_key_attribute_indexes : List ℕ
  pub distribution_key_attribute_indexes : List ℕ

push_if : Bool → List ℕ → ℕ → List ℕ
push_if b indexes i = if b then indexes ++ i ∷ [] else indexes

-- The loop, from column i on. A column counts as a key if the flag is set at all, to true or false.
unfoldable pub scan_columns : ℕ → Scan → List ColumnInfo → Scan
unfolding column_text push_if
scan_columns i scan [] = scan
scan_columns i scan (column ∷ columns) =
    scan_columns (i + 1)
      (record {
        text = scan.text ++ column_text column;
        primary_key_attribute_indexes =
            push_if (is_some column.primary_key) scan.primary_key_attribute_indexes i;
        distribution_key_attribute_indexes =
            push_if (is_some column.distribution_key) scan.distribution_key_attribute_indexes i;
      })
      columns

-- The names of the columns at the indexes, with commas between them and `)` behind the last;
-- `undefined` is an index past the end.
unfoldable pub name_list : List ColumnInfo → List ℕ → Outcome Text
name_list columns [] = ok []
name_list columns (i ∷ indexes) = elim (get_elem? columns i) [
  | none ↦ undefined
  | some column ↦ do
    rest ← name_list columns indexes
    ok (column.name ++ ((if length indexes == 0 then codes ")" else codes ",") ++ rest))
]

-- The statement to run, or the description of the error that is answered.
pub data Statement : Type 0 where
  run : Text → Statement
  refuse : Text → Statement

-- The end of the statement, from the lists of names; `distribution` is how many distribution keys
-- there are. The index is added where there are some, and the statement refused where there are none.
finish_statement : Text → Text → Text → ℕ → Statement
finish_statement text primary_names distribution_names distribution =
    let index =
      if ltb 0 distribution
      then codes ",\nINDEX VOLODB_PRUNE_INDEX USING BTREE (" ++ distribution_names
      else [] in
    let table =
      text ++ (codes "PRIMARY KEY (" ++ (primary_names ++ (index ++ codes ")\nENGINE=NDB\n"))) in
    if distribution == 0
    then refuse (codes "No distribution key indicated")
    else run (table ++ (codes "PARTITION BY KEY (" ++ distribution_names))

-- What is made of the columns that were scanned.
statement_of : List ColumnInfo → Scan → Outcome Statement
unfolding name_list finish_statement
statement_of columns scan =
    if length scan.primary_key_attribute_indexes == 0
    then ok (refuse (codes "No primary key indicated"))
    else do
      primary_names ← name_list columns scan.primary_key_attribute_indexes
      distribution_names ← name_list columns scan.distribution_key_attribute_indexes
      ok (
          finish_statement scan.text primary_names distribution_names
            (length scan.distribution_key_attribute_indexes))

-- execute(CreateStoreOperation), up to the query.
unfoldable pub create_store_statement : CreateStoreOperation → Outcome Statement
unfolding scan_columns statement_of
create_store_statement operation = statement_of operation.column (
    scan_columns 0
      (record {
        text = codes "CREATE TABLE " ++ (operation.store_info.store_name ++ codes "(\n");
        primary_key_attribute_indexes = [];
        distribution_key_attribute_indexes = [];
      })
      operation.column)

unfoldable pub create_database_statement : Text → Text
create_database_statement name = codes "CREATE DATABASE IF NOT EXISTS " ++ name

unfoldable pub drop_database_statement : Text → Text
drop_database_statement name = codes "DROP DATABASE " ++ name

unfoldable pub drop_store_statement : Text → Text
drop_store_statement store_name = codes "DROP TABLE " ++ store_name
