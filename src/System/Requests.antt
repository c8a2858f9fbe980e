-- ===== src/System/Requests.antt =====
-- volodb-client/Executor/Executor.cpp to volodbserver/Store/Store.cpp: the way of the requests of a
-- client to the executor threads.
use volo_db.Prelude.{Text, List, [], ◌∷◌, ◌++◌}
use volo_db.Proto.Wire.{Codec, Message}
use volo_db.Frame.Decoder.{FrameMessagesTuple}
use volo_db.Client.RoundTrip.{delivered_all}

module _ (codec : Codec) (envelope : Text) where
  -- Messages as the server receives them, each behind the envelope of its client.
  abbrev pub enveloped : List Text → List Text
  enveloped [] = []
  enveloped (message ∷ messages) = envelope ∷ message ∷ enveloped messages

  -- The tuples of requests.
  abbrev pub tuples_of : List (List Message × List Text) → List FrameMessagesTuple
  tuples_of [] = []
  tuples_of (r ∷ rs) = delivered_all envelope r.0 r.1 ++ tuples_of rs

  abbrev joined : List (List FrameMessagesTuple) → List FrameMessagesTuple
  joined [] = []
  joined (ts ∷ tss) = ts ++ joined tss
