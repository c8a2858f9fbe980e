-- ===== src/Client/RoundTrip.antt =====
-- volodb-client/Executor/Executor.cpp against volodb-common/Frame/FrameDecoder.cpp: what the server
-- decodes of a client's request.
use volo_db.Prelude.{
  ◌≡◌, ◌≢◌, refl, Text, true, false, none, some, List, [], ◌∷◌, ◌++◌, append_assoc, append-nil, map,
  arith, length, All, keep_if, if◌then◌else◌,
}
use volo_db.Prelude.Outcome.{ok}
use volo_db.Proto.Frame.{Frame, FrameItem}
use volo_db.Proto.Wire.{Codec, Message}
use volo_db.Frame.Decoder.{FrameMessagesTuple, decode_atomic_items, decode_single_items, decode}
use volo_db.Frame.Classes.{is_decoded}
use volo_db.Frame.Items.{Writes, Fits, item_of, add_frame-item_of, decode_item-item_of}
use volo_db.Client.Executor.{add_atomic, add_single, build, execute_all}

-- The tuple that one operation arrives as; an operation with no branch in the decoder leaves an
-- empty one.
abbrev pub delivered : Text → Message → Text → FrameMessagesTuple
delivered envelope m uuid =
    if is_decoded m
    then record { id = uuid; envelope = envelope; messages = m ∷ [] }
    else record { id = []; envelope = envelope; messages = [] }

abbrev pub delivered_all : Text → List Message → List Text → List FrameMessagesTuple
delivered_all envelope [] uuids = []
delivered_all envelope (m ∷ ms) [] = []
delivered_all envelope (m ∷ ms) (uuid ∷ uuids) =
    delivered envelope m uuid ∷ delivered_all envelope ms uuids

module _ (codec : Codec) where
  abbrev pub single_items : List Message → List Text → List FrameItem
  single_items [] uuids = []
  single_items (m ∷ ms) [] = []
  single_items (m ∷ ms) (uuid ∷ uuids) = item_of codec (some uuid) m ∷ single_items ms uuids

  abbrev pub single_frame : List Message → List Text → Frame
  single_frame ms uuids = record { identifier = none; item = single_items ms uuids }

  abbrev pub atomic_frame : Text → List Message → Frame
  atomic_frame uuid ms = record { identifier = some uuid; item = map (item_of codec none) ms }

  add_single-items :
      (items : List FrameItem) (ms : List Message) (uuids : List Text)
      → length ms ≡ length uuids
      → All (Fits codec) ms
      → add_single codec (record { identifier = none; item = items }) ms uuids
        ≡ ok (record { identifier = none; item = items ++ single_items ms uuids })
  unfolding add_single
  add_single-items items [] uuids e h = rw append-nil
  add_single-items items (m ∷ ms) [] e h = absurd (omega arith)
  add_single-items items (m ∷ ms) (uuid ∷ uuids) e h = rw (add_frame-item_of codec _ m uuid h.0) (
      simp append_assoc at
        (add_single-items (items ++ item_of codec (some uuid) m ∷ []) ms uuids (omega arith) h.1))

  add_atomic-items :
      (uuid : Text) (items : List FrameItem) (ms : List Message)
      → All (Fits codec) ms
      → add_atomic codec (record { identifier = some uuid; item = items }) ms
        ≡ ok (record { identifier = some uuid; item = items ++ map (item_of codec none) ms })
  unfolding add_atomic
  add_atomic-items uuid items [] h = rw append-nil
  add_atomic-items uuid items (m ∷ ms) h =
      rw (add_frame-item_of codec _ m [] h.0)
        (simp append_assoc at (add_atomic-items uuid (items ++ item_of codec none m ∷ []) ms h.1))

  decode_single_items-items :
      (envelope : Text) (ms : List Message) (uuids : List Text)
      → All (Fits codec) ms
      → decode_single_items codec envelope (single_items ms uuids) ≡ delivered_all envelope ms uuids
  unfolding decode_single_items
  decode_single_items-items envelope [] uuids h = refl
  decode_single_items-items envelope (m ∷ ms) [] h = refl
  decode_single_items-items envelope (m ∷ ms) (uuid ∷ uuids) h =
      ground
        (arith, decode_item-item_of codec m h.0, decode_single_items-items envelope ms uuids h.1)

  decode_atomic_items-items :
      (ms : List Message)
      → All (Fits codec) ms
      → decode_atomic_items codec (map (item_of codec none) ms) ≡ keep_if is_decoded ms
  unfolding decode_atomic_items
  decode_atomic_items-items [] h = refl
  decode_atomic_items-items (m ∷ ms) h =
      ground (arith, decode_item-item_of codec m h.0, decode_atomic_items-items ms h.1)

  build-single :
      (ms : List Message) (uuids : List Text)
      → length ms ≡ length uuids
      → ms ≢ []
      → All (Fits codec) ms
      → build codec ms uuids false ≡ ok (single_frame ms uuids)
  unfolding build
  build-single [] uuids e n h = absurd (n refl)
  build-single (m ∷ ms) [] e n h = absurd (omega arith)
  build-single (m ∷ ms) (uuid ∷ uuids) e n h =
      ground (arith, add_single-items [] (m ∷ ms) (uuid ∷ uuids) e h)

  build-atomic :
      (uuid : Text) (uuids : List Text) (ms : List Message)
      → All (Fits codec) ms
      → build codec ms (uuid ∷ uuids) true ≡ ok (atomic_frame uuid ms)
  unfolding build
  build-atomic uuid uuids ms h = ground (arith, add_atomic-items uuid [] ms h)

  -- A request that is not atomic arrives as one tuple for each operation, in order: under the
  -- operation's own identifier with that operation alone, or empty where the operation is on a
  -- database, which the decoder knows nothing of. It needs as many identifiers as operations, at
  -- least one operation, and that the runtime writes each message and the frame within its limits.
  pub decode-execute_all_single :
      (ms : List Message) (uuids : List Text) (envelope : Text)
      → length ms ≡ length uuids
      → ms ≢ []
      → All (Fits codec) ms
      → (h : Writes codec.frame (single_frame ms uuids))
      → (execute_all codec ms uuids false ≡ ok h.bytes)
        × (decode codec h.bytes (some envelope) ≡ delivered_all envelope ms uuids)
  unfolding execute_all decode
  decode-execute_all_single ms uuids envelope e n fits h = (
    rw (build-single ms uuids e n fits, h.written),
    rw (codec.frame.parse-serialize _ h.bytes h.written h.short, decode)
        (decode_single_items-items envelope ms uuids fits),
  )

  -- An atomic request arrives as one tuple under the first identifier, with the operations in
  -- order, less those on databases, which are dropped and do not stop the others. It needs that the
  -- runtime writes each message and the frame within its limits.
  pub decode-execute_all_atomic :
      (ms : List Message) (uuid : Text) (uuids : List Text) (envelope : Text)
      → All (Fits codec) ms
      → (h : Writes codec.frame (atomic_frame uuid ms))
      → (execute_all codec ms (uuid ∷ uuids) true ≡ ok h.bytes)
        × (decode codec h.bytes (some envelope)
            ≡ record { id = uuid; envelope = envelope; messages = keep_if is_decoded ms } ∷ [])
  unfolding execute_all decode
  decode-execute_all_atomic ms uuid uuids envelope fits h = (
    rw (build-atomic uuid uuids ms fits, h.written),
    rw (
      codec.frame.parse-serialize _ h.bytes h.written h.short,
      decode,
      decode_atomic_items-items ms fits,
    ),
  )
