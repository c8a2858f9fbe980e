-- ===== src/Server/Store/Life/Destruction.antt =====
-- volodbserver/Store/Store.cpp: the end of a store.
use volo_db.Prelude.{ℕ, zero, suc, ◌<◌, ◌≡◌, inl, inr, refl, sym, ap, ◌∙◌, false, arith, Bool-cases}
use volo_db.Prelude.Outcome.{ok, undefined, ◌>>◌}
use volo_db.Server.Store.Life.{
  Store, new_store, run, stop, clear_ndb, destroy, Lived, made, ran, stopped,
}

clear_ndb_none : (total : ℕ) → 0 < total → clear_ndb false total ≡ undefined
unfolding clear_ndb
clear_ndb_none zero h = absurd (omega arith)
clear_ndb_none (suc total) h = refl

-- What the destructor needs to know of a store: its number of transport threads, and that it has no
-- Ndb objects for them.
abbrev HasNoDefiners : ℕ → Store → Type 0
HasNoDefiners d s = (s.no_definer_thread ≡ d) × (s.has_ndb_definers ≡ false)

stop-HasNoDefiners : (d : ℕ) (s : Store) → HasNoDefiners d s → HasNoDefiners d (stop s)
unfolding stop
stop-HasNoDefiners d s h = elim (Bool-cases s.is_running) [ inl e ↦ rw e h | inr e ↦ rw e h ]

run-HasNoDefiners : (d : ℕ) (s t : Store) → run s ≡ ok t → HasNoDefiners d s → HasNoDefiners d t
unfolding run
run-HasNoDefiners d s t e (same, none_yet) = elim (Bool-cases s.is_running) [
  | inl r ↦ let unchanged : s ≡ t = ground arith in rw (sym unchanged) (same, none_yet)
  | inr r ↦ elim (Bool-cases s.has_transport) [
    | inl h ↦ (ground arith, ground arith)
    | inr h ↦ (ground arith, ground arith)
  ]
]

Lived-HasNoDefiners : (d n : ℕ) (s : Store) → Lived d n s → HasNoDefiners d s
unfolding new_store
Lived-HasNoDefiners d n s made = (refl, refl)
Lived-HasNoDefiners d n s (ran {before = before} l e) =
    run-HasNoDefiners d before s e (Lived-HasNoDefiners d n before l)
Lived-HasNoDefiners d n s (stopped {before = before} l) =
    stop-HasNoDefiners d before (Lived-HasNoDefiners d n before l)

-- However a store has been run and stopped, nothing has given it Ndb objects for its transport
-- threads, so that to destroy it follows a null pointer, if it has such a thread.
pub destroy-Lived : (d n : ℕ) (s : Store) → 0 < d → Lived d n s → destroy s ≡ undefined
unfolding destroy
destroy-Lived d n s h l =
    let (same, none_yet) = stop-HasNoDefiners d s (Lived-HasNoDefiners d n s l) in
    ap (λ o. o >> clear_ndb (stop s).has_ndb_executors (stop s).no_executor_threads)
      (ap (λ b. clear_ndb b (stop s).no_definer_thread) none_yet
        ∙ ap (clear_ndb false) same
        ∙ clear_ndb_none d h)
