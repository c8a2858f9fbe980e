-- ===== src/Server/Store/Startup/Connections.antt =====
-- volodbserver/Store/Store.cpp: which connection each executor's Ndb object is made on.
use volo_db.Prelude.{
  ℕ, zero, suc, ◌+◌, ◌≤◌, ◌<◌, ◌≡◌, refl, ap, ◌∙◌, replicate, Bool, true, false, none, some, List,
  [], ◌∷◌, map, arith, ltb, ◌==◌, ◌⊎◌, inl, inr, Bool-cases, if◌then◌else◌,
}
use volo_db.Server.Program.{cluster_connections}
use volo_db.Server.Store.Startup.{init_ndb_from, init_ndb, connect_all, init_db}

-- The numbers from `i` on.
abbrev pub numbers_from : ℕ → ℕ → List ℕ
numbers_from i zero = []
numbers_from i (suc n) = i ∷ numbers_from (suc i) n

-- Some answer of NDB's is no.
abbrev pub Refuses : (ℕ → Bool) → ℕ → Type 0
Refuses answer n = (k : ℕ) × (k < n) × (answer k ≡ false)

-- NDB's answers from `i` on are all yes.
abbrev pub Accepts : (ℕ → Bool) → ℕ → ℕ → Type 0
Accepts answer i left = (k : ℕ) → i ≤ k → k < i + left → answer k ≡ true

Accepts-first :
    (answer : ℕ → Bool) (i left : ℕ)
    → answer i ≡ true
    → Accepts answer (suc i) left
    → Accepts answer i (suc left)
Accepts-first answer i left e rest k l m = elim (Bool-cases (i == k)) [
  | inl same ↦ let is : i ≡ k = ground arith in rw is at e
  | inr other ↦ rest k (ground arith) (omega arith)
]

connect_all_lem :
    (connects : ℕ → Bool) (left i : ℕ)
    → ((connect_all connects left i ≡ true) × Accepts connects i left)
      ⊎ ((connect_all connects left i ≡ false) × Refuses connects (i + left))
unfolding connect_all
connect_all_lem connects zero i = inl (refl, λ k l m. absurd (omega arith))
connect_all_lem connects (suc left) i = elim (Bool-cases (connects i)) [
  | inr e ↦ inr (rw e refl, (i, omega arith, e))
  | inl e ↦ elim (connect_all_lem connects left (suc i)) [
    | inl (c, all) ↦ inl (rw (e, c) refl, Accepts-first connects i left e all)
    | inr (c, (k, l, f)) ↦ inr (rw (e, c) refl, (k, omega arith, f))
  ]
]

init_ndb_from_lem :
    (c : ℕ) (is_ready : ℕ → Bool) (left i : ℕ)
    → ((init_ndb_from c is_ready left i
          ≡ some (map (λ k. if ltb k c then k else 0) (numbers_from i left)))
        × Accepts is_ready i left)
      ⊎ ((init_ndb_from c is_ready left i ≡ none) × Refuses is_ready (i + left))
unfolding init_ndb_from
init_ndb_from_lem c is_ready zero i = inl (refl, λ k l m. absurd (omega arith))
init_ndb_from_lem c is_ready (suc left) i = elim (Bool-cases (is_ready i)) [
  | inr e ↦ inr (rw e refl, (i, omega arith, e))
  | inl e ↦ elim (init_ndb_from_lem c is_ready left (suc i)) [
    | inl (s, all) ↦ inl (rw (e, s) refl, Accepts-first is_ready i left e all)
    | inr (s, (k, l, f)) ↦ inr (rw (e, s) refl, (k, omega arith, f))
  ]
]

one_shared : (n i : ℕ) → map (λ k. if ltb k 1 then k else 0) (numbers_from i n) ≡ replicate n 0
one_shared zero i = refl
one_shared (suc n) i =
    let first : (if ltb i 1 then i else 0) ≡ 0 = ground arith in
    rw first (ap (λ l. 0 ∷ l) (one_shared n (suc i)))

own_each :
    (c n i : ℕ)
    → i + n ≤ c
    → map (λ k. if ltb k c then k else 0) (numbers_from i n) ≡ numbers_from i n
own_each c zero i h = refl
own_each c (suc n) i h =
    let there : ltb i c ≡ true = ground arith in
    rw there (ap (λ l. i ∷ l) (own_each c n (suc i) (omega arith)))

-- The connections that the executors are to use.
abbrev pub connections_of : Bool → ℕ → List ℕ
connections_of true n = replicate n 0
connections_of false n = numbers_from 0 n

made_on :
    (single : Bool) (n : ℕ)
    → map (λ k. if ltb k (cluster_connections single n) then k else 0) (numbers_from 0 n)
      ≡ connections_of single n
unfolding cluster_connections
made_on true n = one_shared n 0
made_on false n = own_each n n 0 (omega arith)

-- A store connects if NDB accepts each of the connections that its constructor counted and every
-- object that is made on them gets ready; if one does not, the program ends. Once it is connected its
-- executors share the one connection, or each has the connection of its own number, all of which
-- there are; no executor is without.
pub init_db_lem :
    (single : Bool) (n : ℕ) (connects is_ready : ℕ → Bool)
    → ((init_db (cluster_connections single n) connects is_ready n ≡ some (connections_of single n))
        × Accepts connects 0 (cluster_connections single n)
        × Accepts is_ready 0 n)
      ⊎ ((init_db (cluster_connections single n) connects is_ready n ≡ none)
          × (Refuses connects (cluster_connections single n) ⊎ Refuses is_ready n))
unfolding init_db init_ndb
init_db_lem single n connects is_ready =
    let c = cluster_connections single n in
    elim (connect_all_lem connects c 0) [
      | inr (e, (k, l, f)) ↦ inr (rw e refl, inl (k, omega arith, f))
      | inl (e, all) ↦ elim (init_ndb_from_lem c is_ready n 0) [
        | inl (s, ready) ↦ inl (rw e (s ∙ ap some (made_on single n)), all, ready)
        | inr (s, (k, l, f)) ↦ inr (rw e s, inr (k, omega arith, f))
      ]
    ]
