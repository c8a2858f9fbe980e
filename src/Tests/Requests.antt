-- ===== src/Tests/Requests.antt =====
-- The client's requests and the answers to them, at a set, a get and a database operation.
use volo_db.Prelude.{
  ◌≡◌, ◌≢◌, refl, pos, Text, true, false, none, some, List, [], ◌∷◌, codes, arith, All, map,
}
use volo_db.Prelude.Outcome.{ok}
use volo_db.Proto.Column.{ColumnValue, int32, varchar}
use volo_db.Proto.Operation.{SetOperation, GetOperation}
use volo_db.Proto.Wire.{Message, set_operation, get_operation, create_database_operation}
use volo_db.Frame.Decoder.{decode}
use volo_db.Frame.Builder.{serialize}
use volo_db.Frame.Items.{Writes, Fits}
use volo_db.Client.Executor.{execute_all, did_receive_message}
use volo_db.Client.RoundTrip.{
  single_frame, atomic_frame, delivered_all, decode-execute_all_single, decode-execute_all_atomic,
}
use volo_db.Client.Answers.{Sent, did_receive_message-answer_frame}
use volo_db.Tests.Messages.{codec}

abbrev pub key : ColumnValue
key = record {
  name = codes "id";
  type = some int32;
  primary_key = some true;
  distribution_key = some true;
  value = 7 ∷ 0 ∷ 0 ∷ 0 ∷ [];
}

abbrev pub name_value : ColumnValue
name_value = record {
  name = codes "name";
  type = some varchar;
  primary_key = some false;
  distribution_key = some false;
  value = 2 ∷ 0 ∷ 104 ∷ 105 ∷ [];
}

abbrev pub set_person : SetOperation
set_person = record {
  store_info = record { store_name = codes "person" } ∷ [];
  primary_key = key ∷ [];
  value = name_value ∷ [];
}

abbrev pub get_person : GetOperation
get_person = record {
  store_info = record { store_name = codes "person" } ∷ [];
  primary_key = key ∷ [];
  value = [];
}

abbrev pub set_and_get : List Message
set_and_get = set_operation set_person ∷ get_operation get_person ∷ []

abbrev pub mixed : List Message
mixed =
    set_operation set_person
    ∷ create_database_operation (record { database_name = codes "db" })
    ∷ get_operation get_person
    ∷ []

abbrev pub uuids : List Text
uuids = codes "a" ∷ codes "b" ∷ codes "c" ∷ []

set_fits : Writes codec.set set_person
set_fits = record { bytes = _; written = refl; short = omega arith }

get_fits : Writes codec.get get_person
get_fits = record { bytes = _; written = refl; short = omega arith }

pub mixed-Fits : All (Fits codec) mixed
mixed-Fits = (set_fits, (tt, (get_fits, tt)))

unfoldable pub single_written : Writes codec.frame (single_frame codec mixed uuids)
unfolding serialize
single_written = record { bytes = _; written = refl; short = omega arith }

pub atomic_written : Writes codec.frame (atomic_frame codec (codes "a") mixed)
unfolding serialize
atomic_written = record { bytes = _; written = refl; short = omega arith }

pub mixed_some : mixed ≢ []
mixed_some e = cc

decode-execute_all_single_example :
    (execute_all codec mixed uuids false ≡ ok single_written.bytes)
    × (decode codec single_written.bytes (some (codes "client"))
        ≡ delivered_all (codes "client") mixed uuids)
decode-execute_all_single_example =
    decode-execute_all_single codec mixed uuids (codes "client") refl mixed_some mixed-Fits
      single_written

decode-execute_all_atomic_example :
    (execute_all codec mixed (codes "a" ∷ []) true ≡ ok atomic_written.bytes)
    × (decode codec atomic_written.bytes (some (codes "client"))
        ≡ record { id = codes "a"; envelope = codes "client"; messages = set_and_get } ∷ [])
decode-execute_all_atomic_example =
    decode-execute_all_atomic codec mixed (codes "a") [] (codes "client") mixed-Fits atomic_written

abbrev pub done_sent : Sent codec
done_sent = record {
  content = record {
    transaction_identifier = codes "a";
    result = [];
    error_code = none;
    error_description = none;
  };
  item = record { bytes = _; written = refl; short = omega arith };
  frame = record { bytes = _; written = refl; short = omega arith };
}

abbrev pub refused_sent : Sent codec
refused_sent = record {
  content = record {
    transaction_identifier = codes "b";
    result = [];
    error_code = some (pos 626);
    error_description = some (codes "no");
  };
  item = record { bytes = _; written = refl; short = omega arith };
  frame = record { bytes = _; written = refl; short = omega arith };
}

did_receive_message-answer_frame_example :
    did_receive_message codec true (map (λ s. s.frame.bytes) (done_sent ∷ refused_sent ∷ []))
    ≡ some (done_sent.content ∷ refused_sent.content ∷ [])
did_receive_message-answer_frame_example =
    did_receive_message-answer_frame codec done_sent (refused_sent ∷ [])
