-- ===== src/Server/Ndb/Ends.antt =====
-- Computations that come back, whatever the environment answers, as long as the tables that are
-- cached have a property: neither an exception nor undefined behaviour ends them.
use volo_db.Prelude.{◌≡◌, refl, ◌∙◌, Bool, true, false, List, All, if◌then◌else◌}
use volo_db.Prelude.Outcome.{ok}
use volo_db.Server.Ndb.{
  Table, KeyPart, Event, World, M, Environment, ◌>>=◌, pure, call, ask, start, define,
  last_error_message, last_error_code, >>=-of_ok,
}

module _ (Good : Table → Type 0) where
  abbrev pub IsKnown : World → Type 0
  IsKnown w = All (λ entry. Good entry.1) w.entries

  -- The computation comes back with a value that has a property, and keeps the cached tables good.
  abbrev pub EndsIn : {A : Type 0} → (A → Type 0) → M A → Type 0
  EndsIn {A} P m =
      (w : World) → IsKnown w → (a : A) × (w' : World) × (m w ≡ ok (a, w')) × IsKnown w' × P a

  abbrev pub Ends : {A : Type 0} → M A → Type 0
  Ends = EndsIn (λ a. Unit)

  pub pure-EndsIn : {A : Type 0} {P : A → Type 0} (a : A) → P a → EndsIn P (pure a)
  pure-EndsIn a p w k = (a, w, refl, k, p)

  pub pure-Ends : {A : Type 0} (a : A) → Ends (pure a)
  pure-Ends a w k = (a, w, refl, k, tt)

  pub >>=-EndsIn :
      {A B : Type 0} {P : A → Type 0} {R : B → Type 0} (m : M A) (f : A → M B)
      → EndsIn P m
      → ((a : A) → P a → EndsIn R (f a))
      → EndsIn R (m >>= f)
  >>=-EndsIn m f first next w k =
      let (a, v, e, known, p) = first w k in
      let (b, u, e', known', r) = next a p v known in (b, u, >>=-of_ok m f e ∙ e', known', r)

  pub >>=-Ends :
      {A B : Type 0} (m : M A) (f : A → M B) → Ends m → ((a : A) → Ends (f a)) → Ends (m >>= f)
  >>=-Ends m f first next = >>=-EndsIn m f first (λ a _. next a)

  pub if-Ends : {A : Type 0} (b : Bool) (m n : M A) → Ends m → Ends n → Ends (if b then m else n)
  if-Ends true m n x y = x
  if-Ends false m n x y = y

  pub either_ends :
      {A : Type 0} {P : A → Type 0} (b : Bool) (x y : A × World)
      → IsKnown x.1
      → IsKnown y.1
      → P x.0
      → P y.0
      → (a : A) × (w : World) × ((if b then ok x else ok y) ≡ ok (a, w)) × IsKnown w × P a
  either_ends true x y k l p q = (x.0, x.1, refl, k, p)
  either_ends false x y k l p q = (y.0, y.1, refl, l, q)

  pub call-Ends : (event : Event) → Ends (call event)
  unfolding call
  call-Ends event w k = (tt, _, refl, k, tt)

  module _ (env : Environment) where
    pub ask-Ends : (event : Event) → Ends (ask env event)
    unfolding ask
    ask-Ends event w k = (_, _, refl, k, tt)

    pub last_error_message-Ends : Ends (last_error_message env)
    unfolding last_error_message
    last_error_message-Ends w k = (_, _, refl, k, tt)

    pub last_error_code-Ends : Ends (last_error_code env)
    unfolding last_error_code
    last_error_code-Ends w k = (_, _, refl, k, tt)

    pub define-Ends : (is_scan : Bool) (event : Event) → Ends (define env is_scan event)
    unfolding define
    define-Ends is_scan event w k = (_, _, refl, k, tt)

    pub start-Ends : (table : Table) (hint : List KeyPart) → Ends (start env table hint)
    unfolding start
    start-Ends table hint w k = either_ends _ _ _ k k tt tt
