-- ===== src/Server/Ndb/Tally.antt =====
-- What a trace of calls amounts to: transactions started, closed, handed over to NDB and waited for,
-- the most that was waited for at once, and answers sent and not sent.
use Prim.Native.Nat.{max}
use volo_db.Prelude.{
  ℕ, suc, ◌+◌, ◌≡◌, ◌∙◌, Bool, true, false, none, some, List, [], ◌∷◌, arith, if◌then◌else◌,
}
use volo_db.Prelude.Outcome.{ok}
use volo_db.Server.Ndb.{
  Event, World, M, Environment, ◌>>=◌, pure, fault, call, ask, define, >>=-eq_ok, start_transaction,
  close_transaction, execute_asynch_prepare, reply, wait_for_transactions,
}

pub record Tally : Type 0 where
  pub started : ℕ
  pub closed : ℕ
  pub prepared : ℕ
  pub replied : ℕ
  pub unsent : ℕ
  pub waited : ℕ
  pub longest_wait : ℕ

-- A transaction that did not start is none; an answer that could not be serialised is not sent.
abbrev pub bump : Event → Tally → Tally
bump (start_transaction table hint (some handle)) t = record t { started = suc t.started }
bump (start_transaction table hint none) t = t
bump (close_transaction handle) t = record t { closed = suc t.closed }
bump (execute_asynch_prepare handle id envelope operations) t = record t {
  prepared = suc t.prepared;
}
bump (reply envelope (some bytes)) t = record t { replied = suc t.replied }
bump (reply envelope none) t = record t { unsent = suc t.unsent }
bump (wait_for_transactions n) t = record t {
  waited = t.waited + n;
  longest_wait = max t.longest_wait n;
}
bump _ t = t

abbrev pub tally : List Event → Tally
tally [] = record {
  started = 0;
  closed = 0;
  prepared = 0;
  replied = 0;
  unsent = 0;
  waited = 0;
  longest_wait = 0;
}
tally (event ∷ events) = bump event (tally events)

-- The event counts for nothing.
abbrev pub Quiet : Event → Type 0
Quiet event = (t : Tally) → bump event t ≡ t

-- The computation makes quiet calls only.
abbrev pub Keeps : {A : Type 0} → M A → Type 0
Keeps {A} m = (w w' : World) (a : A) → m w ≡ ok (a, w') → tally w'.trace ≡ tally w.trace

pub pure-Keeps : {A : Type 0} (a : A) → Keeps (pure a)
pure-Keeps a w w' b e = ground arith

pub fault-Keeps : {A : Type 0} → Keeps (fault {A = A})
fault-Keeps w w' b e = cc

pub >>=-Keeps :
    {A B : Type 0} (m : M A) (f : A → M B) → Keeps m → ((a : A) → Keeps (f a)) → Keeps (m >>= f)
>>=-Keeps m f km kf w w' b e = let (a, v, p, q) = >>=-eq_ok m f w e in kf a v w' b q ∙ km w v a p

pub call-Keeps : (event : Event) → Quiet event → Keeps (call event)
unfolding call
call-Keeps event q w w' a e = ground (arith, q (tally w.trace))

pub ask-Keeps : (env : Environment) (event : Event) → Quiet event → Keeps (ask env event)
unfolding ask
ask-Keeps env event q w w' a e = ground (arith, q (tally w.trace))

pub define-Keeps :
    (env : Environment) (is_scan : Bool) (event : Event)
    → Quiet event
    → Keeps (define env is_scan event)
unfolding define
define-Keeps env is_scan event q w w' a e = ground (arith, q (tally w.trace))

pub if-Keeps : {A : Type 0} (b : Bool) (m n : M A) → Keeps m → Keeps n → Keeps (if b then m else n)
if-Keeps true m n km kn = km
if-Keeps false m n km kn = kn
