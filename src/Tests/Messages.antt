-- ===== src/Tests/Messages.antt =====
-- A protocol buffer runtime for the tests: every message class by its fields in order.
use volo_db.Prelude.{ℕ, ◌≡◌, refl, ℤ, pos, negsuc, Text, Bool, true, false, ◌==◌, if◌then◌else◌}
use volo_db.Proto.Column.{
  ColumnType, column_type_value, ColumnInfo, ColumnValue, bool, int32, uint32, int64, uint64, float,
  double, char, varchar, varbinary,
}
use volo_db.Proto.Operation.{
  StoreInfo, CreateDatabaseOperation, DropDatabaseOperation, CreateStoreOperation,
  DropStoreOperation, SetOperation, DeleteOperation, GetOperation,
}
use volo_db.Proto.Frame.{
  FrameItemType, FrameItem, Frame, none_type, create_database, drop_database, create_store,
  drop_store, set, get, delete, server_response,
}
use volo_db.Proto.Result.{Row, OperationResult, Result}
use volo_db.Proto.Wire.{Codec}
use volo_db.Tests.Formats.{Format, number, via, pair, list, option, wire}

abbrev text : Format Text
text = list number

abbrev bool_to : Bool → ℕ
bool_to false = 0
bool_to true = 1

abbrev bool_from : ℕ → Bool
bool_from n = if n == 0 then false else true

pub bool_inverse : (b : Bool) → bool_from (bool_to b) ≡ b
bool_inverse false = refl
bool_inverse true = refl

abbrev flag : Format Bool
flag = via bool_to bool_from bool_inverse number

abbrev integer_to : ℤ → Bool × ℕ
integer_to (pos n) = (true, n)
integer_to (negsuc n) = (false, n)

abbrev integer_from : Bool × ℕ → ℤ
integer_from (true, n) = pos n
integer_from (false, n) = negsuc n

pub integer_inverse : (z : ℤ) → integer_from (integer_to z) ≡ z
integer_inverse (pos n) = refl
integer_inverse (negsuc n) = refl

abbrev integer : Format ℤ
integer = via integer_to integer_from integer_inverse (pair flag number)

abbrev type_from : ℕ → ColumnType
type_from n =
    if n == 1
    then bool
    else if n == 7
    then int32
    else if n == 8
    then uint32
    else if n == 9
    then int64
    else if n == 10
    then uint64
    else if n == 11
    then float
    else if n == 12
    then double
    else if n == 14
    then char
    else if n == 23
    then varchar
    else varbinary

pub type_inverse : (t : ColumnType) → type_from (column_type_value t) ≡ t
unfolding column_type_value
type_inverse varbinary = refl
type_inverse bool = refl
type_inverse _ = refl

abbrev column_type : Format ColumnType
column_type = via column_type_value type_from type_inverse number

abbrev item_type_to : FrameItemType → ℕ
item_type_to none_type = 0
item_type_to create_database = 1
item_type_to drop_database = 2
item_type_to create_store = 3
item_type_to drop_store = 4
item_type_to set = 5
item_type_to get = 6
item_type_to delete = 7
item_type_to server_response = 8

abbrev item_type_from : ℕ → FrameItemType
item_type_from n =
    if n == 0
    then none_type
    else if n == 1
    then create_database
    else if n == 2
    then drop_database
    else if n == 3
    then create_store
    else if n == 4
    then drop_store
    else if n == 5
    then set
    else if n == 6
    then get
    else if n == 7
    then delete
    else server_response

pub item_type_inverse : (t : FrameItemType) → item_type_from (item_type_to t) ≡ t
item_type_inverse none_type = refl
item_type_inverse _ = refl

abbrev item_type : Format FrameItemType
item_type = via item_type_to item_type_from item_type_inverse number

abbrev column_info : Format ColumnInfo
column_info =
    via (λ c. (c.name, (c.type, (c.primary_key, (c.distribution_key, c.length)))))
      (λ p. record {
        name = p.0;
        type = p.1.0;
        primary_key = p.1.1.0;
        distribution_key = p.1.1.1.0;
        length = p.1.1.1.1;
      })
      (λ c. refl)
      (pair text (pair column_type (pair (option flag) (pair (option flag) (option integer)))))

abbrev column_value : Format ColumnValue
column_value =
    via (λ c. (c.name, (c.type, (c.primary_key, (c.distribution_key, c.value)))))
      (λ p. record {
        name = p.0;
        type = p.1.0;
        primary_key = p.1.1.0;
        distribution_key = p.1.1.1.0;
        value = p.1.1.1.1;
      })
      (λ c. refl)
      (pair text (pair (option column_type) (pair (option flag) (pair (option flag) text))))

abbrev store_info : Format StoreInfo
store_info = via (λ s. s.store_name) (λ n. record { store_name = n }) (λ s. refl) text

abbrev create_database_format : Format CreateDatabaseOperation
create_database_format =
    via (λ m. m.database_name) (λ n. record { database_name = n }) (λ m. refl) text

abbrev drop_database_format : Format DropDatabaseOperation
drop_database_format =
    via (λ m. m.database_name) (λ n. record { database_name = n }) (λ m. refl) text

abbrev create_store_format : Format CreateStoreOperation
create_store_format =
    via (λ m. (m.store_info, m.column)) (λ p. record { store_info = p.0; column = p.1 }) (λ m. refl)
      (pair store_info (list column_info))

abbrev drop_store_format : Format DropStoreOperation
drop_store_format = via (λ m. m.store_info) (λ s. record { store_info = s }) (λ m. refl) store_info

abbrev set_format : Format SetOperation
set_format =
    via (λ m. (m.store_info, (m.primary_key, m.value)))
      (λ p. record { store_info = p.0; primary_key = p.1.0; value = p.1.1 }) (λ m. refl)
      (pair (list store_info) (pair (list column_value) (list column_value)))

abbrev delete_format : Format DeleteOperation
delete_format =
    via (λ m. (m.store_info, m.primary_key)) (λ p. record { store_info = p.0; primary_key = p.1 })
      (λ m. refl) (pair (list store_info) (list column_value))

abbrev get_format : Format GetOperation
get_format =
    via (λ m. (m.store_info, (m.primary_key, m.value)))
      (λ p. record { store_info = p.0; primary_key = p.1.0; value = p.1.1 }) (λ m. refl)
      (pair (list store_info) (pair (list column_value) (list column_value)))

abbrev row : Format Row
row = via (λ r. r.column) (λ c. record { column = c }) (λ r. refl) (list column_value)

abbrev operation_result : Format OperationResult
operation_result =
    via (λ r. (r.row, r.type)) (λ p. record { row = p.0; type = p.1 }) (λ r. refl)
      (pair (list row) item_type)

abbrev result_format : Format Result
result_format =
    via (λ r. (r.transaction_identifier, (r.result, (r.error_code, r.error_description))))
      (λ p. record {
        transaction_identifier = p.0;
        result = p.1.0;
        error_code = p.1.1.0;
        error_description = p.1.1.1;
      })
      (λ r. refl) (pair text (pair (list operation_result) (pair (option integer) (option text))))

abbrev frame_item : Format FrameItem
frame_item =
    via (λ i. (i.type, (i.data_bytes, i.identifier)))
      (λ p. record { type = p.0; data_bytes = p.1.0; identifier = p.1.1 }) (λ i. refl)
      (pair item_type (pair text (option text)))

abbrev frame_format : Format Frame
frame_format =
    via (λ f. (f.identifier, f.item)) (λ p. record { identifier = p.0; item = p.1 }) (λ f. refl)
      (pair (option text) (list frame_item))

abbrev pub codec : Codec
codec = record {
  create_database = wire create_database_format;
  drop_database = wire drop_database_format;
  create_store = wire create_store_format;
  drop_store = wire drop_store_format;
  set = wire set_format;
  delete = wire delete_format;
  get = wire get_format;
  result = wire result_format;
  frame = wire frame_format;
}
