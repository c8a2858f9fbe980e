-- ===== src/Server/Processor/Hint.antt =====
-- volodbserver/Store/NDBMessageProcessor.h: the partition hint of a transaction.
use volo_db.Prelude.{◌+◌, ◌≡◌, refl, List, [], ◌∷◌, ◌++◌, map, length, arith, keep_if}
use volo_db.Proto.Column.{ColumnValue}
use volo_db.Server.Ndb.{part, terminator}
use volo_db.Server.Processor.{is_distribution_key, get_no_distribution_key_indexes, get_hint}

-- The hint is the values of the distribution keys in order and a terminator, and fills the array
-- that its callers declare for it exactly: the number of distribution keys and one.
pub get_hint_lem :
    (columns : List ColumnValue)
    → (get_hint columns
        ≡ map (λ c. part c.value) (keep_if is_distribution_key columns) ++ terminator ∷ [])
      × (length (get_hint columns) ≡ get_no_distribution_key_indexes columns + 1)
unfolding get_hint get_no_distribution_key_indexes
get_hint_lem [] = (refl, omega arith)
get_hint_lem (column ∷ columns) =
    (ground (arith, get_hint_lem columns), ground (arith, get_hint_lem columns))
