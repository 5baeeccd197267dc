-- ===== src/Manager/Store.antt =====
-- The store of metrics: `MetricStore` of src/oumigo/service/manager/control/store.py. The table
-- `metric_fact` is a list of rows in the order of their insertion, and the rows of one time leave
-- `since` in that order. A text is ordered by its code points, as SQLite does. The cutoff that
-- `_cutoff` computes from the clock is an argument; so are what a value is and
-- SQLite's LIKE. Each method is one
-- transaction under the lock, which is not modelled.
pub mod Upsert
use Prim.Native.String.{compare as compare_texts}
use Prim.Native.Nat.{Ordering}
use oumigo.Prelude.{
  ℕ, String, Bool, true, false, ◌&&◌, not, List, [], ◌∷◌, if◌then◌else◌, ◌==ₛ◌, filter, any, length,
}

-- The primary key.
pub record Key : Type 0 where
  pub node_id : String
  pub metric : String
  pub timestamp : String

abbrev pub same_key : Key → Key → Bool
same_key a b = a.node_id ==ₛ b.node_id && (a.metric ==ₛ b.metric && a.timestamp ==ₛ b.timestamp)

-- `a < b`, of texts.
abbrev pub before : String → String → Bool
before a b = elim (compare_texts a b) [ Ordering.lt ↦ true | _ ↦ false ]

abbrev pub Table : Type 0 → Type 0
Table V = List (Key × V)

module _ {V : Type 0} where
  -- One INSERT … ON CONFLICT … DO UPDATE.
  unfoldable pub upsert : Key → V → Table V → Table V
  upsert k v [] = (k, v) ∷ []
  upsert k v ((j, w) ∷ rows) = if same_key j k then (j, v) ∷ rows else (j, w) ∷ upsert k v rows

  -- A point is a metric, a time and a value.
  unfoldable pub upsert_all : String → List (String × String × V) → Table V → Table V
  upsert_all node_id [] rows = rows
  upsert_all node_id ((metric, timestamp, value) ∷ points) rows =
      upsert_all node_id points
        (upsert (record { node_id = node_id; metric = metric; timestamp = timestamp }) value rows)

  unfoldable pub prune : String → Table V → Table V
  prune cutoff rows = filter (λ r. not (before r.0.timestamp cutoff)) rows

  unfoldable pub ingest : String → List (String × String × V) → String → Table V → Table V × ℕ
  ingest node_id points cutoff rows = (prune cutoff (upsert_all node_id points rows), length points)

  -- Where prefixes are given, the metric is LIKE one of them; `like p m` is `m LIKE (p || '%')`.
  abbrev matches : (String → String → Bool) → List String → Key × V → Bool
  matches like [] r = true
  matches like (p ∷ ps) r = any (λ q. like q r.0.metric) (p ∷ ps)

  -- ORDER BY timestamp.
  insert : Key × V → Table V → Table V
  insert r [] = r ∷ []
  insert r (q ∷ rows) =
      let rest = insert r rows in
      if before q.0.timestamp r.0.timestamp then q ∷ rest else r ∷ (q ∷ rows)

  by_timestamp : Table V → Table V
  by_timestamp [] = []
  by_timestamp (r ∷ rows) = insert r (by_timestamp rows)

  pub since : (String → String → Bool) → String → List String → Table V → Table V
  since like after prefixes rows =
      by_timestamp (filter (λ r. before after r.0.timestamp && matches like prefixes r) rows)

  -- `MAX(timestamp)` of a node: a text is never before the empty one.
  latest : String → Table V → String
  latest node_id [] = ""
  latest node_id (r ∷ rows) =
      let t = latest node_id rows in
      if r.0.node_id ==ₛ node_id && before t r.0.timestamp then r.0.timestamp else t

  pub count : Table V → ℕ
  count rows = length rows
