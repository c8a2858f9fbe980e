-- ===== src/Server/Executor/Reply.antt =====
-- volodbserver/Store/NDBMessageExecutor.cpp: the answers to a client.
use volo_db.Prelude.{◌≡◌, refl, ℤ, Text, Bool, none, some, [], ◌∷◌, get_or, is_some}
use volo_db.Prelude.Outcome.{Outcome, ok, throw, undefined}
use volo_db.Proto.Frame.{Frame, server_response}
use volo_db.Proto.Result.{Result}
use volo_db.Proto.Wire.{Codec, result}
use volo_db.Frame.Builder.{get_bytes_of_frame_with_message}
use volo_db.Frame.Utils.{is_type, get_frame_type}
use volo_db.Server.Ndb.{World, M, ◌>>=◌, ◌>>◌, pure, call, reply}

unfoldable pub make_result_for_error : Text → Text → ℤ → Result
make_result_for_error transaction_id description error_code = record {
  transaction_identifier = transaction_id;
  result = [];
  error_code = some error_code;
  error_description = some description;
}

unfoldable pub make_result : Text → Result
make_result transaction_id = record {
  transaction_identifier = transaction_id;
  result = [];
  error_code = none;
  error_description = none;
}

-- A call of code that has no state.
unfoldable pub lift : {A : Type 0} → Outcome A → M A
lift (ok a) w = ok (a, w)
lift (throw e) w = throw e
lift undefined w = undefined

-- replyWithResult: a result that cannot be serialised is not sent, and the call returns false.
unfoldable pub reply_with_result : Codec → Result → Text → M Bool
unfolding lift call get_bytes_of_frame_with_message
reply_with_result codec r envelope = do
  framed ← lift (get_bytes_of_frame_with_message codec (result r))
  call (reply envelope framed.0)
  pure (is_some framed.0)

-- The frame of an answer: one item, under an empty identifier.
abbrev pub answer_frame : Codec → Result → Frame
answer_frame codec r = record {
  identifier = none;
  item =
      record {
        type = server_response;
        data_bytes = get_or [] (codec.result.serialize r);
        identifier = some [];
      }
      ∷ [];
}

-- An answer is sent if its frame can be serialised; the call always comes back.
pub reply_with_result_lem :
    (codec : Codec) (r : Result) (envelope : Text) (w : World)
    → let bytes = codec.frame.serialize (answer_frame codec r) in
      reply_with_result codec r envelope w
      ≡ ok (is_some bytes, record w { trace = reply envelope bytes ∷ w.trace })
unfolding reply_with_result is_type get_frame_type
reply_with_result_lem codec r envelope w = refl
