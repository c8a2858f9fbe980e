-- ===== src/Client/Executor.antt =====
-- volodb-client/Executor/Executor.cpp: operations into frames, and answers out of frames.
use volo_db.Prelude.{
  Text, Bool, true, false, not, ◌&&◌, Option, none, some, List, [], ◌∷◌, length, codes, get_or, ltb,
  ◌==◌, if◌then◌else◌,
}
use volo_db.Prelude.Outcome.{Outcome, ok, throw, undefined, ◌>>=◌}
use volo_db.Proto.Frame.{Frame, server_response}
use volo_db.Proto.Result.{Result}
use volo_db.Proto.Wire.{Codec, Message, result}
use volo_db.Frame.Utils.{get_frame_type, is_type}
use volo_db.Frame.Builder.{frame_builder, add_frame, get_bytes}
use volo_db.Frame.Decoder.{decode_all, flatten_frame_messages_tuple_list_to_single_list}

module _ (codec : Codec) where
  -- _sendFrame: what ClientTransport::send is given. The result of getBytes is not looked at.
  unfoldable pub send_frame : Frame → Text
  unfolding get_bytes
  send_frame frame = get_or [] (get_bytes codec frame)

  -- execute(operation, uuid).
  unfoldable pub execute : Message → Text → Outcome Text
  unfolding send_frame frame_builder add_frame
  execute operation uuid = do
    added ← add_frame codec (frame_builder false []) operation uuid
    ok (send_frame added.0)

  -- The loop of the other overload; `undefined` is a read of uuids[i] past the end.
  unfoldable pub add_atomic : Frame → List Message → Outcome Frame
  unfolding add_frame
  add_atomic frame [] = ok frame
  add_atomic frame (operation ∷ operations) = do
    added ← add_frame codec frame operation []
    add_atomic added.0 operations

  unfoldable pub add_single : Frame → List Message → List Text → Outcome Frame
  unfolding add_frame
  add_single frame [] uuids = ok frame
  add_single frame (operation ∷ operations) [] = undefined
  add_single frame (operation ∷ operations) (uuid ∷ uuids) = do
    added ← add_frame codec frame operation uuid
    add_single added.0 operations uuids

  add_all : Bool → Frame → List Message → List Text → Outcome Frame
  unfolding add_atomic add_single
  add_all true frame operations uuids = add_atomic frame operations
  add_all false frame operations uuids = add_single frame operations uuids

  -- execute(operations, uuids, runAtomic), up to the call of _sendFrame. `undefined` is uuids[0] of
  -- an empty vector.
  unfoldable pub build : List Message → List Text → Bool → Outcome Frame
  unfolding add_all frame_builder
  build operations uuids run_atomic =
      if not run_atomic && not (length operations == length uuids)
      then throw (codes "UUID must be provided for every operation for non atomic execution")
      else if run_atomic && ltb (length uuids) 1
      then throw (codes "At least one UUID must be provided for atomic operation")
      else elim uuids [
        | [] ↦ undefined
        | uuid ∷ rest ↦ add_all run_atomic (frame_builder run_atomic uuid) operations (uuid ∷ rest)
      ]

  unfoldable pub execute_all : List Message → List Text → Bool → Outcome Text
  unfolding build send_frame
  execute_all operations uuids run_atomic = do
    frame ← build operations uuids run_atomic
    ok (send_frame frame)

-- dynamic_cast<Result*>, and what push_back adds to the results.
push_result : Message → List Result → List Result
push_result (result r) results = r ∷ results
push_result _ results = results

-- The loop of didReceiveMessage over the flattened responses.
unfoldable pub results_of : Bool → List Message → List Result
unfolding get_frame_type is_type push_result
results_of has_delegate [] = []
results_of has_delegate (response ∷ responses) =
    let rest = results_of has_delegate responses in
    if is_type (get_frame_type response) server_response && has_delegate
    then push_result response rest
    else rest

-- didReceiveMessage: what the delegate's didReceiveResponse is called with, if it is called.
unfoldable pub did_receive_message : Codec → Bool → List Text → Option (List Result)
unfolding results_of decode_all flatten_frame_messages_tuple_list_to_single_list
did_receive_message codec has_delegate messages =
    let responses = decode_all codec messages in
    let flattened = flatten_frame_messages_tuple_list_to_single_list responses in
    elim (results_of has_delegate flattened) [ [] ↦ none | r ∷ rs ↦ some (r ∷ rs) ]
