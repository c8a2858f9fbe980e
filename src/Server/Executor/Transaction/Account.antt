-- ===== src/Server/Executor/Transaction/Account.antt =====
-- volodbserver/Store/NDBMessageExecutor.cpp: the account of a part of a request, and how the accounts
-- of its steps add up.
use volo_db.Prelude.{
  ℕ, ◌+◌, ◌≤◌, ◌≡◌, sym, ◌∙◌, ◌∷◌, Text, Bool, Option, none, some, arith, is_some,
}
use volo_db.Prelude.Outcome.{Outcome, ok}
use volo_db.Proto.Result.{Result}
use volo_db.Proto.Wire.{Codec}
use volo_db.Server.Ndb.{World, M, ◌>>=◌, pure, call, >>=-eq_ok, close_transaction, reply}
use volo_db.Server.Ndb.Tally.{tally, Keeps}
use volo_db.Server.Executor.Reply.{reply_with_result, reply_with_result_lem, answer_frame}
use volo_db.Server.Executor.Transaction.{Progress}

-- One for a transaction, none for the null pointer.
abbrev pub open_count : Option ℕ → ℕ
open_count none = 0
open_count (some transaction) = 1

-- What is held after a round.
abbrev pub held : Option Progress → Option ℕ
held none = none
held (some p) = p.transaction

-- A round that ends the loop has answered.
abbrev pub ends : Option Progress → ℕ
ends none = 1
ends (some p) = 0

-- From one world to the next: the transactions started since are closed, handed over, or the one
-- that is held now (`after`) and was not before (`before`); `handed` are handed over, and `answers`
-- are given, sent or not. Nothing is waited for.
pub record Account (before : Option ℕ) (w : World) (after : Option ℕ) (w' : World)
    (handed answers : ℕ) : Type 0 where
  pub live :
      (tally w'.trace).started
        + (tally w.trace).closed
        + (tally w.trace).prepared
        + open_count before
      ≡ (tally w.trace).started
        + (tally w'.trace).closed
        + (tally w'.trace).prepared
        + open_count after
  pub handed_over : (tally w'.trace).prepared ≡ (tally w.trace).prepared + handed
  pub answered :
      (tally w'.trace).replied + (tally w'.trace).unsent
      ≡ (tally w.trace).replied + (tally w.trace).unsent + answers
  pub no_fewer_sent : (tally w.trace).replied ≤ (tally w'.trace).replied
  pub no_fewer_unsent : (tally w.trace).unsent ≤ (tally w'.trace).unsent
  pub no_wait : (tally w'.trace).waited ≡ (tally w.trace).waited
  pub no_longer_wait : (tally w'.trace).longest_wait ≡ (tally w.trace).longest_wait

pub Account-of_Keeps :
    {A : Type 0} (m : M A) (t : Option ℕ) (w w' : World) (a : A)
    → Keeps m
    → m w ≡ ok (a, w')
    → Account t w t w' 0 0
Account-of_Keeps m t w w' a k e = ground (arith, k w w' a e)

pub Account-trans :
    (a b c : Option ℕ) (u v w : World) (h h' r r' : ℕ)
    → Account a u b v h r
    → Account b v c w h' r'
    → Account a u c w (h + h') (r + r')
Account-trans a b c u v w h h' r r' p q = omega arith

-- Whenever the computation returns, its account is this, by what it returned.
abbrev pub Runs : {A : Type 0} → M A → Option ℕ → (A → Option ℕ) → (A → ℕ) → Type 0
Runs {A} m before after answers =
    (w w' : World) (a : A) → m w ≡ ok (a, w') → Account before w (after a) w' 0 (answers a)

pub Runs-of_Keeps : {A : Type 0} (m : M A) (t : Option ℕ) → Keeps m → Runs m t (λ _. t) (λ _. 0)
Runs-of_Keeps m t k w w' a e = Account-of_Keeps m t w w' a k e

pub Runs-bind :
    {A B : Type 0} (m : M A) (f : A → M B) (before : Option ℕ) (between : A → Option ℕ)
    (after : B → Option ℕ) (answers : B → ℕ)
    → Runs m before between (λ _. 0)
    → ((a : A) → Runs (f a) (between a) after answers)
    → Runs (m >>= f) before after answers
Runs-bind m f before between after answers rm rf w w' b e =
    let (a, v, p, q) = >>=-eq_ok m f w e in
    let first = rm w v a p in let second = rf a v w' b q in omega arith

pub Runs-pure : {A : Type 0} (a : A) (after : A → Option ℕ) → Runs (pure a) (after a) after (λ _. 0)
Runs-pure a after w w' b e = ground arith

pub Runs-then :
    {A B : Type 0} (m : M A) (f : A → M B) (before between after : Option ℕ)
    → Runs m before (λ _. between) (λ _. 1)
    → ((a : A) → Runs (f a) between (λ _. after) (λ _. 0))
    → Runs (m >>= f) before (λ _. after) (λ _. 1)
Runs-then m f before between after rm rf w w' b e =
    let (a, v, p, q) = >>=-eq_ok m f w e in
    let first = rm w v a p in let second = rf a v w' b q in omega arith

replied-Account :
    (codec : Codec) (r : Result) (envelope : Text) (t : Option ℕ) (w w' : World) (b : Bool)
    (bytes : Option Text)
    → ◌≡◌ {A = Outcome (Bool × World)}
        (ok (is_some bytes, record w { trace = reply envelope bytes ∷ w.trace }))
        (ok (b, w'))
    → Account t w t w' 0 1
replied-Account codec r envelope t w w' b none e = ground arith
replied-Account codec r envelope t w w' b (some bytes) e = ground arith

pub reply_with_result-Runs :
    (codec : Codec) (r : Result) (envelope : Text) (t : Option ℕ)
    → Runs (reply_with_result codec r envelope) t (λ _. t) (λ _. 1)
reply_with_result-Runs codec r envelope t w w' b e =
    replied-Account codec r envelope t w w' b (codec.frame.serialize (answer_frame codec r))
      (sym (reply_with_result_lem codec r envelope w) ∙ e)

pub close-Runs : (t : ℕ) → Runs (call (close_transaction t)) (some t) (λ _. none) (λ _. 0)
unfolding call
close-Runs t w w' b e = ground arith
