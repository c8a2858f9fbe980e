-- ===== src/Server/Cache/Replay.antt =====
-- volodbserver/Cache/TableInfoCache.cpp: the steps of threads in any order, against a function from
-- store names to tables that is changed at one name at a time.
use volo_db.Prelude.{
  ◌≡◌, refl, ap, ◌∙◌, Text, Option, none, some, List, [], ◌∷◌, arith, text_eq, text_eq_refl,
  if◌then◌else◌, true, false, Bool-cases, inl, inr,
}
use volo_db.Prelude.Outcome.{ok}
use volo_db.Server.Ndb.{Table, Environment, World, Event, M, ◌>>=◌, ◌>>◌, pure, get_table}
use volo_db.Server.Cache.{find, assign, erase, get, set, invalidate, get_internal, put}
use volo_db.Server.Cache.Map.{Distinct, find-assign, find-erase, assign-Distinct, erase-Distinct}

-- What the threads of the server do with the cache, in steps between which other threads may take the
-- lock. A set is two: it asks the dictionary without the lock, and then puts what it was answered.
pub data CacheStep : Type 0 where
  to_get : Text → CacheStep
  to_ask : Text → CacheStep
  to_put : Text → Option Table → CacheStep
  to_invalidate : Text → CacheStep

module _ (env : Environment) where
  -- A step, with what it returns.
  take_step : CacheStep → M (Option Table)
  unfolding get get_internal invalidate
  take_step (to_get name) = get name
  take_step (to_ask name) = get_internal env name
  take_step (to_put name found) = put name found
  take_step (to_invalidate name) = do invalidate name; pure none

  unfoldable pub take_steps : List CacheStep → M (List (Option Table))
  unfolding take_step
  take_steps [] = pure []
  take_steps (c ∷ cs) = do result ← take_step c; results ← take_steps cs; pure (result ∷ results)

  -- What the cache stands for, and the calls of the dictionary that it has made.
  abbrev pub Abstract : Type 0
  Abstract = (Text → Option Table) × List Event

  abbrev pub changed : Text → Option Table → (Text → Option Table) → Text → Option Table
  changed name found tables k = if text_eq name k then found else tables k

  -- What a set finds changes the function, unless it is nothing.
  abbrev pub set_found : Text → Option Table → Abstract → Option Table × Abstract
  set_found name none (tables, trace) = (none, (tables, trace))
  set_found name (some table) (tables, trace) =
      (some table, (changed name (some table) tables, trace))

  abbrev pub replay_step : CacheStep → Abstract → Option Table × Abstract
  replay_step (to_get name) (tables, trace) = (tables name, (tables, trace))
  replay_step (to_ask name) (tables, trace) =
      if env.has_dictionary trace
      then (env.table trace name, (tables, get_table name ∷ trace))
      else (none, (tables, trace))
  replay_step (to_put name found) state = set_found name found state
  replay_step (to_invalidate name) (tables, trace) = (none, (changed name none tables, trace))

  abbrev pub replay : List CacheStep → Abstract → List (Option Table) × Abstract
  replay [] state = ([], state)
  replay (c ∷ cs) state =
      let after = replay_step c state in let rest = replay cs after.1 in (after.0 ∷ rest.0, rest.1)

  -- The entries are the function's, each name once.
  pub record StandsFor (w : World) (state : Abstract) : Type 0 where
    pub found : (k : Text) → find k w.entries ≡ state.0 k
    pub distinct : Distinct w.entries
    pub same_trace : w.trace ≡ state.1

  put-StandsFor :
      (name : Text) (table : Option Table) (w : World) (state : Abstract)
      → StandsFor w state
      → (w' : World) × (put name table w ≡ ok ((set_found name table state).0, w'))
        × StandsFor w' (set_found name table state).1
  unfolding put
  put-StandsFor name none w state h = (w, refl, h)
  put-StandsFor name (some table) w state h = (
    record w { entries = assign name table w.entries },
    refl,
    record {
      found = λ k. ground (arith, find-assign name k table w.entries, h.found k);
      distinct = assign-Distinct name table w.entries h.distinct;
      same_trace = h.same_trace;
    },
  )

  get_internal-StandsFor :
      (name : Text) (w : World) (state : Abstract)
      → StandsFor w state
      → (w' : World) × (get_internal env name w ≡ ok ((replay_step (to_ask name) state).0, w'))
        × StandsFor w' (replay_step (to_ask name) state).1
  unfolding get_internal
  get_internal-StandsFor name w (tables, trace) h = elim (Bool-cases (env.has_dictionary trace)) [
    | inr e ↦
        let off : env.has_dictionary w.trace ≡ false = rw h.same_trace e in
        (w, rw (off, e) refl, rw e h)
    | inl e ↦
        let on : env.has_dictionary w.trace ≡ true = rw h.same_trace e in
        let asked : World = record w { trace = get_table name ∷ w.trace } in
        (
          asked,
          rw (on, e) (ap (λ t. ok (env.table t name, asked)) h.same_trace),
          rw e (record {
            found = h.found;
            distinct = h.distinct;
            same_trace = ap (λ t. get_table name ∷ t) h.same_trace;
          }),
        )
  ]

  take_step-StandsFor :
      (c : CacheStep) (w : World) (state : Abstract)
      → StandsFor w state
      → (w' : World) × (take_step c w ≡ ok ((replay_step c state).0, w'))
        × StandsFor w' (replay_step c state).1
  unfolding take_step get set invalidate get_internal
  take_step-StandsFor (to_get name) w state h = (w, ap (λ t. ok (t, w)) (h.found name), h)
  take_step-StandsFor (to_invalidate name) w state h = (
    record w { entries = erase name w.entries },
    refl,
    record {
      found = λ k. ground (arith, find-erase name k w.entries h.distinct, h.found k);
      distinct = erase-Distinct name w.entries h.distinct;
      same_trace = h.same_trace;
    },
  )
  take_step-StandsFor (to_ask name) w state h = get_internal-StandsFor name w state h
  take_step-StandsFor (to_put name found) w state h = put-StandsFor name found w state h

  take_steps-StandsFor :
      (cs : List CacheStep) (w : World) (state : Abstract)
      → StandsFor w state
      → (w' : World) × (take_steps cs w ≡ ok ((replay cs state).0, w'))
        × StandsFor w' (replay cs state).1
  unfolding take_steps
  take_steps-StandsFor [] w state h = (w, refl, h)
  take_steps-StandsFor (c ∷ cs) w state h =
      let (w1, first, h1) = take_step-StandsFor c w state h in
      let (w2, rest, h2) = take_steps-StandsFor cs w1 (replay_step c state).1 h1 in
      (w2, rw (first, rest) refl, h2)

  -- Whatever threads do with the cache, in any order, and with other threads between the two steps of
  -- a set: each step returns what it returns on a function from store names to tables, of which a put
  -- changes one value to what the dictionary had answered, unless that was nothing, and an
  -- invalidation removes one. The entries end as that function, with one for each name still, and
  -- only the asking of a set asks the dictionary.
  pub take_steps_lem :
      (cs : List CacheStep) (w : World)
      → Distinct w.entries
      → (w' : World) × (take_steps cs w ≡ ok ((replay cs ((λ k. find k w.entries), w.trace)).0, w'))
        × StandsFor w' (replay cs ((λ k. find k w.entries), w.trace)).1
  take_steps_lem cs w d =
      take_steps-StandsFor cs w ((λ k. find k w.entries), w.trace)
        (record { found = λ k. refl; distinct = d; same_trace = refl })

  -- A set that has its answer before a store is invalidated, and puts it after that, leaves the table of
  -- the dropped store in the cache.
  pub invalidate-put :
      (name : Text) (table : Table) (w : World)
      → Distinct w.entries
      → env.has_dictionary w.trace ≡ true
      → (results : List (Option Table)) × (w' : World) × (take_steps
            (to_ask name ∷ to_invalidate name ∷ to_put name (some table) ∷ [])
            w
          ≡ ok (results, w'))
        × (find name w'.entries ≡ some table)
  invalidate-put name table w d h =
      let steps : List CacheStep =
        to_ask name ∷ to_invalidate name ∷ to_put name (some table) ∷ [] in
      let (w', taken, stands) = take_steps_lem steps w d in
      let itself : text_eq name name ≡ true = text_eq_refl name in
      (_, w', taken, stands.found name ∙ rw (h, itself) refl)
