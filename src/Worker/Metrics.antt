-- ===== src/Worker/Metrics.antt =====
-- The worker's collection of metrics: src/oumigo/service/worker/metrics.py. Its buffer
-- (`MetricsBuffer`), its tracker of the request rate (`_RequestRateTracker`) and its collector
-- (`MetricsCollector`). Times are seconds of the grid; what a value is, is an argument. The buffer's
-- methods hold its lock from first to last; the sampler's and the reporter's calls interleave.
-- The readers of /proc, of the GPU and of vLLM, the threads and their waits are left out: what they
-- read is an argument.
pub mod Eviction
pub mod Sublists
pub mod Delivery
pub mod Rate
mod Tests
use oumigo.Prelude.{
  ℕ, zero, suc, ◌+◌, ◌-◌, ◌*◌, ◌≤◌, String, Bool, true, false, ◌&&◌, not, Option, none, some, List,
  [], ◌∷◌, ◌++◌, map, if◌then◌else◌, ltb, leb, ◌==◌, length,
}
use oumigo.Prelude.Dict.{Dict, put, get}

pub record MetricRow (V : Type 0) : Type 0 where
  pub node_id : String
  pub grid_epoch : ℕ
  pub timestamp : String
  pub metric : String
  pub value : V

module _ {V : Type 0} where
  -- `rows[-1].grid_epoch`, of a list that begins with `r`.
  pub last_epoch : MetricRow V → List (MetricRow V) → ℕ
  last_epoch r [] = r.grid_epoch
  last_epoch r (q ∷ rows) = last_epoch q rows

  -- The inner loop of `_evict_locked`: how many rows are dropped.
  pub count_before : ℕ → List (MetricRow V) → ℕ
  count_before cutoff [] = 0
  count_before cutoff (r ∷ rows) =
      let n = count_before cutoff rows in if ltb r.grid_epoch cutoff then suc n else 0

  -- `rows[n:]`.
  pub skip : ℕ → List (MetricRow V) → List (MetricRow V)
  skip zero rows = rows
  skip (suc n) [] = []
  skip (suc n) (r ∷ rows) = skip n rows

  module _ (capacity chunk : ℕ) where
    -- The condition of the outer loop.
    pub overflows : List (MetricRow V) → Bool
    overflows [] = false
    overflows (r ∷ rows) = leb (r.grid_epoch + capacity) (last_epoch r rows)

    abbrev pub first_epoch : List (MetricRow V) → ℕ
    first_epoch [] = 0
    first_epoch (r ∷ rows) = r.grid_epoch

    -- The outer loop, at most `fuel` times.
    pub evict_loop : ℕ → List (MetricRow V) → List (MetricRow V)
    evict_loop zero rows = rows
    evict_loop (suc fuel) rows =
        let drop = count_before (first_epoch rows + chunk) rows in
        let rest = evict_loop fuel (skip drop rows) in
        if not (overflows rows) then rows else if drop == 0 then rows else rest

    -- `_evict_locked`: every turn drops a row.
    pub evict : List (MetricRow V) → List (MetricRow V)
    evict rows = evict_loop (length rows) rows

    pub append : List (MetricRow V) → List (MetricRow V) → List (MetricRow V)
    append rows buffer = evict (buffer ++ rows)

    pub restore : List (MetricRow V) → List (MetricRow V) → List (MetricRow V)
    restore rows buffer = evict (rows ++ buffer)

  -- What the buffer holds after it, and what it took.
  pub drain : List (MetricRow V) → List (MetricRow V) × List (MetricRow V)
  drain buffer = ([], buffer)

-- What the tracker computes on floating-point counts: `y - x >= 0`, and
-- `round((y - x) / w * 60.0, 2)`.
pub record Floats (V : Type 0) : Type 0 where
  pub grown : V → V → Bool
  pub per_minute : V → V → ℕ → V

abbrev window_min : ℕ
window_min = 60

abbrev pub window_max : ℕ
window_max = 180

-- `d.update(other)`.
update_all {ℓ} : {V : Type ℓ} → Dict V → Dict V → Dict V
update_all [] d = d
update_all ((k, v) ∷ other) d = update_all other (put k v d)

module _ {V : Type 0} (F : Floats V) where
  -- The samples that `update` keeps.
  pub pop_before : ℕ → List (ℕ × V) → List (ℕ × V)
  pop_before cutoff [] = []
  pop_before cutoff ((e, v) ∷ samples) =
      let rest = pop_before cutoff samples in if ltb e cutoff then rest else (e, v) ∷ samples

  -- The rate against the oldest sample.
  pub rate_from : ℕ → V → List (ℕ × V) → Option V
  rate_from grid_epoch cumulative [] = none
  rate_from grid_epoch cumulative ((e, v) ∷ samples) =
      if leb window_min (grid_epoch - e) && F.grown v cumulative
      then some (F.per_minute v cumulative (grid_epoch - e))
      else none

  -- `_RequestRateTracker.update`.
  pub update : ℕ → Option V → List (ℕ × V) → List (ℕ × V) × Option V
  update grid_epoch none samples = (samples, none)
  update grid_epoch (some cumulative) samples =
      let kept = pop_before (grid_epoch - window_max) samples in
      (kept ++ (grid_epoch, cumulative) ∷ [], rate_from grid_epoch cumulative kept)

  -- What `_sample_at` reads.
  pub record Readings : Type 0 where
    pub host : Dict V
    pub gpu : Dict V
    pub vllm : Dict V

  abbrev put_given : String → Option V → Dict V → Dict V
  put_given k none d = d
  put_given k (some v) d = put k v d

  to_rows : String → ℕ → String → Dict V → List (MetricRow V)
  to_rows node_id grid_epoch timestamp [] = []
  to_rows node_id grid_epoch timestamp ((k, v) ∷ metrics) =
      record {
        node_id = node_id;
        grid_epoch = grid_epoch;
        timestamp = timestamp;
        metric = k;
        value = v;
      }
      ∷ to_rows node_id grid_epoch timestamp metrics

  -- The rows that `_sample_at` appends, and its tracker after it; `timestamp` is the text of the slot.
  sample_at :
      String
      → ℕ
      → String
      → V
      → Option V
      → Readings
      → List (ℕ × V)
      → List (ℕ × V) × List (MetricRow V)
  sample_at node_id grid_epoch timestamp worker_start vllm_start readings samples =
      let metrics = update_all readings.vllm (update_all readings.gpu readings.host) in
      let (samples', rpm) =
        update grid_epoch (get "vllm:request_success_total_stop" metrics) samples in
      let rated = put_given "vllm:num_requests_per_minute" rpm metrics in
      let stamped =
        put_given "vllm:start_timestamp" vllm_start
          (put "worker:start_timestamp" worker_start rated) in
      (samples', to_rows node_id grid_epoch timestamp stamped)

-- The buffer, and the batch that the reporter is sending.
pub record Collector (V : Type 0) : Type 0 where
  pub buffer : List (MetricRow V)
  pub sending : Option (List (MetricRow V))

-- What the two threads do to them, each under the buffer's lock: `_sample_at` at its end, and
-- `_flush_once` where it starts, and where the send returns or raises. A batch is sent at a time. A
-- send that raises may have reached the manager all the same, as where its answer is lost.
pub data CollectorStep (V : Type 0) : Type 0 where
  samples : List (MetricRow V) → CollectorStep V
  starts sent : CollectorStep V
  failed : Bool → CollectorStep V

-- A report that reached the manager: whether its send returned, and its rows.
pub record Report (V : Type 0) : Type 0 where
  pub answered : Bool
  pub rows : List (MetricRow V)

module _ {V : Type 0} where
  abbrev start_flush : List (MetricRow V) → Option (List (MetricRow V))
  start_flush [] = none
  start_flush (r ∷ rows) = some (r ∷ rows)

  abbrev pub batch_of : Option (List (MetricRow V)) → List (MetricRow V)
  batch_of none = []
  batch_of (some rows) = rows

  pub flush_start : List (MetricRow V) → Option (List (MetricRow V)) → Collector V
  flush_start buffer (some rows) = record { buffer = buffer; sending = some rows }
  flush_start buffer none =
      let (left, taken) = drain buffer in record { buffer = left; sending = start_flush taken }

  pub flush_failed : ℕ → ℕ → List (MetricRow V) → Option (List (MetricRow V)) → Collector V
  flush_failed capacity chunk buffer none = record { buffer = buffer; sending = none }
  flush_failed capacity chunk buffer (some rows) = record {
    buffer = restore capacity chunk rows buffer;
    sending = none;
  }

  abbrev pub report_of : Bool → Option (List (MetricRow V)) → List (Report V)
  report_of answered none = []
  report_of answered (some rows) = record { answered = answered; rows = rows } ∷ []

  abbrev pub lost_report : Bool → Option (List (MetricRow V)) → List (Report V)
  lost_report false sending = []
  lost_report true sending = report_of false sending

  -- After a step, and the report that reached the manager in it.
  pub collector_step : ℕ → ℕ → Collector V → CollectorStep V → Collector V × List (Report V)
  collector_step capacity chunk c (samples []) = (c, [])
  collector_step capacity chunk c (samples (r ∷ rows)) =
      (record c { buffer = append capacity chunk (r ∷ rows) c.buffer }, [])
  collector_step capacity chunk c starts = (flush_start c.buffer c.sending, [])
  collector_step capacity chunk c sent = (record c { sending = none }, report_of true c.sending)
  collector_step capacity chunk c (failed reached) =
      (flush_failed capacity chunk c.buffer c.sending, lost_report reached c.sending)
