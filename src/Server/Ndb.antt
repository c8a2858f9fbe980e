-- ===== src/Server/Ndb.antt =====
-- What the server calls and does not implement: the NDB API of MySQL Cluster, the MySQL client and
-- the sockets. Each call is an event of a trace, and its answer may depend on all that came before.
pub mod Tally
pub mod Ends
use volo_db.Prelude.{
  ◌≡◌, refl, sym, ◌∙◌, ℕ, suc, ◌+◌, ℤ, Text, Bool, true, false, Option, none, some, List, [], ◌∷◌,
  if◌then◌else◌,
}
use volo_db.Prelude.Outcome.{Outcome, ok, throw, undefined}
use volo_db.Proto.Frame.{FrameItemType}

-- What the server asks an `NdbDictionary::Table`; `column_no` is none for an unknown column.
pub record Table : Type 0 where
  pub no_of_primary_keys : ℕ
  pub no_of_columns : ℕ
  pub column_no : Text → Option ℕ

-- An `Ndb::Key_part_ptr`: the bytes of a key, or the null pointer that ends the array.
pub data KeyPart : Type 0 where
  part : List ℕ → KeyPart
  terminator : KeyPart

-- An NdbOperation by a handle, with what the dynamic cast to a scan operation finds.
pub record Operation : Type 0 where
  pub handle : ℕ
  pub is_scan : Bool

-- An entry of NdbTransactionStateOperationsItem; the columns are those of a read, by number.
pub record PreparedOperation : Type 0 where
  pub type : FrameItemType
  pub operation : Operation
  pub columns : Option (List ℕ)
  pub thread_no : ℕ

-- The calls, with the handle that a transaction is given, none if it does not start, and a reply
-- as its envelope and its bytes, none if it could not be serialised and is not sent. The last is
-- the whole of waitForTransactionsToComplete.
pub data Event : Type 0 where
  get_table : Text → Event
  start_transaction : Table → List KeyPart → Option ℕ → Event
  get_ndb_operation get_ndb_scan_operation : ℕ → Text → Event
  get_ndb_index_scan_operation : ℕ → Text → Text → Event
  write_tuple delete_tuple simple_read read_tuples : Operation → Event
  equal set_value : Operation → Text → List ℕ → Event
  get_value : Operation → ℕ → Event
  filter_begin filter_end : Operation → Event
  filter_cmp : Operation → ℕ → List ℕ → Event
  execute_asynch_prepare : ℕ → Text → Text → List PreparedOperation → Event
  close_transaction : ℕ → Event
  reply : Text → Option Text → Event
  mysql_query : Text → Event
  wait_for_transactions : ℕ → Event

-- The environment: what it answers, after a trace whose last event comes first.
pub record Environment : Type 0 where
  pub has_dictionary : List Event → Bool
  pub table : List Event → Text → Option Table
  pub succeeds : List Event → Event → Bool
  pub node_id : List Event → ℕ
  pub error_message : List Event → Text
  pub error_code : List Event → ℤ

-- The shared state: the trace, the next handle, the entries of the table cache, and the counters
-- of the transaction monitor.
pub record World : Type 0 where
  pub trace : List Event
  pub next_handle : ℕ
  pub entries : List (Text × Table)
  pub no_recent_transactions : ℕ
  pub no_recent_failed_transactions : ℕ

abbrev pub M : Type 0 → Type 0
M A = World → Outcome (A × World)

abbrev continue : {A B : Type 0} → Outcome (A × World) → (A → M B) → Outcome (B × World)
continue (ok (a, w)) f = f a w
continue (throw e) f = throw e
continue undefined f = undefined

infixl 5 ◌>>=◌ ◌>>◌
abbrev pub ◌>>=◌ : {A B : Type 0} → M A → (A → M B) → M B
◌>>=◌ m f w = continue (m w) f

abbrev pub ◌>>◌ : {A B : Type 0} → M A → M B → M B
m >> k = m >>= λ _. k

abbrev pub pure : {A : Type 0} → A → M A
pure a w = ok (a, w)

-- What the language leaves undefined.
abbrev pub fault : {A : Type 0} → M A
fault w = undefined

-- A call whose answer is not looked at.
unfoldable pub call : Event → M (Unit {0})
call event w = ok (tt, record w { trace = event ∷ w.trace })

-- A fresh handle.
unfoldable pub new_handle : M ℕ
new_handle w = ok (w.next_handle, record w { next_handle = w.next_handle + 1 })

module _ (env : Environment) where
  -- A call that succeeds or fails.
  unfoldable pub ask : Event → M Bool
  ask event w = ok (env.succeeds w.trace event, record w { trace = event ∷ w.trace })

  unfoldable pub last_error_message : M Text
  last_error_message w = ok (env.error_message w.trace, w)

  unfoldable pub last_error_code : M ℤ
  last_error_code w = ok (env.error_code w.trace, w)

  -- Ndb::startTransaction: a transaction, or the null pointer.
  unfoldable pub start : Table → List KeyPart → M (Option ℕ)
  start table hint w =
      if env.succeeds w.trace (start_transaction table hint (some w.next_handle))
      then ok (
        some w.next_handle,
        record w {
          trace = start_transaction table hint (some w.next_handle) ∷ w.trace;
          next_handle = w.next_handle + 1;
        },
      )
      else ok (none, record w { trace = start_transaction table hint none ∷ w.trace })

  -- A call that gives an operation, or the null pointer.
  unfoldable pub define : Bool → Event → M (Option Operation)
  unfolding ask new_handle
  define is_scan event = do
    done ← ask event
    h ← new_handle
    pure (if done then some (record { handle = h; is_scan = is_scan }) else none)

-- A bind whose first step returns goes on with what follows, and only such a bind returns.
pub >>=-of_ok :
    {A B : Type 0} (m : M A) (f : A → M B) {w w' : World} {a : A}
    → m w ≡ ok (a, w')
    → (m >>= f) w ≡ f a w'
>>=-of_ok m f e = rw e

continue-eq_ok :
    {A B : Type 0} (r : Outcome (A × World)) (f : A → M B) {w'' : World} {b : B}
    → continue r f ≡ ok (b, w'')
    → (a : A) × (w' : World) × (r ≡ ok (a, w')) × (f a w' ≡ ok (b, w''))
continue-eq_ok (ok (a, w)) f e = (a, w, refl, e)
continue-eq_ok (throw t) f e = cc
continue-eq_ok undefined f e = cc

pub >>=-eq_ok :
    {A B : Type 0} (m : M A) (f : A → M B) (w : World) {w'' : World} {b : B}
    → (m >>= f) w ≡ ok (b, w'')
    → (a : A) × (w' : World) × (m w ≡ ok (a, w')) × (f a w' ≡ ok (b, w''))
>>=-eq_ok m f w e = continue-eq_ok (m w) f e
