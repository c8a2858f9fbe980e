-- ===== src/Tests/Cluster.antt =====
-- A cluster that has one store, and in which every call succeeds, and requests to it.
use volo_db.Prelude.{
  ℕ, ◌≡◌, ◌≢◌, refl, pos, Text, true, false, Option, none, some, List, [], ◌∷◌, codes, All, text_eq,
  if◌then◌else◌,
}
use volo_db.Prelude.Outcome.{Outcome, ok, throw, undefined}
use volo_db.Proto.Wire.{Message, drop_store_operation}
use volo_db.Frame.Decoder.{FrameMessagesTuple}
use volo_db.Frame.Utils.{is_definition_frame}
use volo_db.Server.Ndb.{Table, Environment, World}
use volo_db.Server.Executor.Transaction.{execute_tuple}
use volo_db.Server.Executor.Transaction.Sent.{Sends}
use volo_db.Tests.Messages.{codec}
use volo_db.Tests.Requests.{set_and_get}

abbrev pub person : Text
person = codes "person"

abbrev pub column_no : Text → Option ℕ
column_no name =
    if text_eq name (codes "id")
    then some 0
    else if text_eq name (codes "name")
    then some 1
    else none

abbrev pub person_table : Table
person_table = record { no_of_primary_keys = 1; no_of_columns = 2; column_no = column_no }

abbrev pub dictionary : Text → Option Table
dictionary name = if text_eq name person then some person_table else none

abbrev pub cluster : Environment
cluster = record {
  has_dictionary = λ t. true;
  table = λ t. dictionary;
  succeeds = λ t event. true;
  node_id = λ t. 3;
  error_message = λ t. codes "failed";
  error_code = λ t. pos 626;
}

abbrev pub start : World
start = record {
  trace = [];
  next_handle = 0;
  entries = [];
  no_recent_transactions = 0;
  no_recent_failed_transactions = 0;
}

-- The world that a call leaves.
abbrev pub world_after : {A : Type 0} → Outcome (A × World) → World
world_after (ok (a, w)) = w
world_after (throw e) = start
world_after undefined = start

abbrev pub cached : World
cached = record start { entries = (person, person_table) ∷ [] }

abbrev pub tuple_of : Text → List Message → FrameMessagesTuple
tuple_of id messages = record { id = id; envelope = codes "client"; messages = messages }

abbrev pub request : FrameMessagesTuple
request = tuple_of (codes "a") set_and_get

abbrev pub handed_over : World
handed_over = world_after (execute_tuple cluster codec 0 request start)

pub request_returned : execute_tuple cluster codec 0 request start ≡ ok (true, handed_over)
unfolding execute_tuple text_eq
request_returned = refl

pub set_and_get-All : All (λ m. is_definition_frame m ≡ false) set_and_get
unfolding is_definition_frame
set_and_get-All = (refl, (refl, tt))

pub some_message : set_and_get ≢ []
some_message e = cc

abbrev pub drop_person : FrameMessagesTuple
drop_person =
    tuple_of (codes "d")
      (drop_store_operation (record { store_info = record { store_name = person } }) ∷ [])

-- The codec serialises every answer.
pub sends : Sends codec
sends r = refl
