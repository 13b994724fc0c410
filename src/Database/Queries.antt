-- ===== src/Database/Queries.antt =====
-- dix/database.go: the registry of named queries, and the results that are stored for each month. A
-- template, its parsing and execution, and the driver are parameters.
use dotidx.Prelude.{
  ℕ, ◌≡◌, refl, sym, ap, ◌∙◌, Bool, true, false, true≢false, ◌&&◌, inl, inr, Bool-cases, Option,
  none, some, ◌>>=◌, bind-some, List, [], ◌∷◌, String, str_eq, eq_iff, ◌==◌, ==_iff, Dict, lookup,
  insert, if◌then◌else◌, arith,
}
use mathlib.Core.Option.{some-injective, none-ne-some}

-- The primary key of `dotidx_monthly_query_results`.
pub record QueryKey : Type 0 where
  pub relay_chain : String
  pub chain : String
  pub query_name : String
  pub year : ℕ
  pub month : ℕ

abbrev pub same_key : QueryKey → QueryKey → Bool
same_key k l =
    str_eq k.relay_chain l.relay_chain
    && (str_eq k.chain l.chain
        && (str_eq k.query_name l.query_name && (k.year == l.year && k.month == l.month)))

pub record NamedQuery (Template : Type 0) : Type 0 where
  pub name : String
  pub sql_template : Template
  pub description : String

pub record StoredResult (Results : Type 0) : Type 0 where
  pub key : QueryKey
  pub results : Results
  pub last_updated : ℕ

module _ {Template : Type 0} where
  -- `RegisterQuery`, where `parse` is that of text/template.
  unfoldable pub register_query :
      (String → Option Template)
      → String
      → String
      → String
      → Dict (NamedQuery Template)
      → Option (Dict (NamedQuery Template))
  unfolding lookup insert
  register_query parse name sql description registry = elim (lookup name registry) [
    | some query ↦ none
    | none ↦ parse sql >>= λ template. some (
        insert name (record { name = name; sql_template = template; description = description })
          registry)
  ]

module _ {Results : Type 0} where
  -- `ON CONFLICT (...) DO UPDATE SET results, last_updated`
  unfoldable pub store :
      StoredResult Results → List (StoredResult Results) → List (StoredResult Results)
  store row [] = row ∷ []
  store row (old ∷ rows) =
      let rest = store row rows in if same_key old.key row.key then row ∷ rows else old ∷ rest

  -- `StoreMonthlyQueryResult` at the time `now`; `stores` is whether the results can be marshalled and the
  -- statement succeeds.
  unfoldable pub store_monthly_query_result :
      Bool
      → ℕ
      → QueryKey
      → Results
      → List (StoredResult Results)
      → Option (List (StoredResult Results))
  unfolding store
  store_monthly_query_result stores now key results rows =
      if stores
      then some (store (record { key = key; results = results; last_updated = now }) rows)
      else none

  -- `ReadTimeNamedQuery`, where `none` is the zero time.
  unfoldable pub read_time_named_query : QueryKey → List (StoredResult Results) → Option ℕ
  read_time_named_query key [] = none
  read_time_named_query key (row ∷ rows) =
      let rest = read_time_named_query key rows in
      if same_key row.key key then some row.last_updated else rest

module _ {Template Results : Type 0} where
  -- `ExecuteNamedQuery`, over the execution of a template and the run of a query by the driver.
  unfoldable pub execute_named_query :
      (Template → QueryKey → Option String)
      → (String → Option Results)
      → Dict (NamedQuery Template)
      → QueryKey
      → Option Results
  unfolding lookup
  execute_named_query render run registry key = do
    query ← lookup key.query_name registry
    sql ← render query.sql_template key
    run sql

  unfoldable pub execute_and_store_named_query :
      (Template → QueryKey → Option String)
      → (String → Option Results)
      → Dict (NamedQuery Template)
      → Bool
      → ℕ
      → QueryKey
      → List (StoredResult Results)
      → Option (List (StoredResult Results))
  unfolding execute_named_query store_monthly_query_result
  execute_and_store_named_query render run registry stores now key rows = do
    results ← execute_named_query render run registry key
    store_monthly_query_result stores now key results rows

and_split : (a b : Bool) → (a && b) ≡ true → (a ≡ true) × (b ≡ true)
and_split true b e = (refl, e)
and_split false b e = elim (true≢false (sym e)) [ ]

same_key_self : (k : QueryKey) → same_key k k ≡ true
same_key_self k = ground (
  arith,
  eq_iff k.relay_chain k.relay_chain,
  eq_iff k.chain k.chain,
  eq_iff k.query_name k.query_name,
)

pub same_key-eq : (k l : QueryKey) → same_key k l ≡ true → k ≡ l
same_key-eq k l e i =
    let (relay, e1) = and_split _ _ e in
    let (chain, e2) = and_split _ _ e1 in
    let (name, e3) = and_split _ _ e2 in
    let (year, month) = and_split _ _ e3 in
    record {
      relay_chain = (eq_iff k.relay_chain l.relay_chain).0 relay i;
      chain = (eq_iff k.chain l.chain).0 chain i;
      query_name = (eq_iff k.query_name l.query_name).0 name i;
      year = (==_iff k.year l.year).0 year i;
      month = (==_iff k.month l.month).0 month i;
    }

same_key_trans : (k l m : QueryKey) → same_key k l ≡ true → same_key k m ≡ same_key l m
same_key_trans k l m e = ap (λ key. same_key key m) (same_key-eq k l e)

module _ {Results : Type 0} where
  read_time_named_query-store :
      (row : StoredResult Results) (rows : List (StoredResult Results))
      → read_time_named_query row.key (store row rows) ≡ some row.last_updated
  unfolding store read_time_named_query
  read_time_named_query-store row [] = rw (same_key_self row.key) refl
  read_time_named_query-store row (old ∷ rows) = elim (Bool-cases (same_key old.key row.key)) [
    | inl e ↦ rw e (rw (same_key_self row.key) refl)
    | inr e ↦ rw e (rw e (read_time_named_query-store row rows))
  ]

  read_time_named_query-store_other :
      (asked : QueryKey) (row : StoredResult Results) (rows : List (StoredResult Results))
      → same_key row.key asked ≡ false
      → read_time_named_query asked (store row rows) ≡ read_time_named_query asked rows
  unfolding store read_time_named_query
  read_time_named_query-store_other asked row [] ne = rw ne refl
  read_time_named_query-store_other asked row (old ∷ rows) ne =
      elim (Bool-cases (same_key old.key row.key)) [
        | inl e ↦ rw e (rw ne (rw (same_key_trans old.key row.key asked e ∙ ne) refl))
        | inr e ↦ rw e (
            ap (λ rest. if same_key old.key asked then some old.last_updated else rest)
              (read_time_named_query-store_other asked row rows ne))
      ]

module _ {Template Results : Type 0} where
  -- After a query is executed and its results are stored, the time read for the same query, chain and
  -- month is the time it was done, and the time read for anything else is what it was before.
  pub read_time_named_query-execute_and_store :
      (render : Template → QueryKey → Option String) (run : String → Option Results)
      (registry : Dict (NamedQuery Template)) (stores : Bool) (now : ℕ) (key : QueryKey)
      (rows rows' : List (StoredResult Results))
      → execute_and_store_named_query render run registry stores now key rows ≡ some rows'
      → (read_time_named_query key rows' ≡ some now)
        × ((asked : QueryKey)
            → same_key key asked ≡ false
            → read_time_named_query asked rows' ≡ read_time_named_query asked rows)
  unfolding execute_and_store_named_query store_monthly_query_result
  read_time_named_query-execute_and_store render run registry stores now key rows rows' e =
      let (results, ran, done) =
        bind-some (execute_named_query render run registry key) _ rows' e in
      let stored : StoredResult Results = record {
        key = key;
        results = results;
        last_updated = now;
      } in
      elim (Bool-cases stores) [
        | inl ok ↦
            let same = some-injective (store stored rows) rows' (rw ok at done) in
            (
              ap (read_time_named_query key) (sym same) ∙ read_time_named_query-store stored rows,
              λ asked ne.
                  ap (read_time_named_query asked) (sym same)
                  ∙ read_time_named_query-store_other asked stored rows ne,
            )
        | inr bad ↦ elim (none-ne-some rows' (rw bad at done)) [ ]
      ]
