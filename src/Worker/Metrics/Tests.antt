-- ===== src/Worker/Metrics/Tests.antt =====
-- A collector with a capacity of 15 seconds, of which it drops 5 at a time.
use oumigo.Prelude.{
  ℕ, ◌-◌, ◌*◌, ◌/◌, ◌≡◌, refl, Option, none, some, List, [], ◌∷◌, ◌++◌, arith, leb, All, ◌+◌, ◌≤◌,
  ◌↔◌, true, false,
}
use oumigo.Worker.Metrics.{
  MetricRow, Floats, overflows, evict, evict_loop, count_before, skip, last_epoch, Collector,
  CollectorStep, samples, starts, sent, failed, update, window_max,
}
use oumigo.Worker.Metrics.Delivery.{
  course, answered_rows, start, pending, start-IsSub, start-InSpan, InSpan, sampled_by,
}
use oumigo.Worker.Metrics.Sublists.{IsSub}
use oumigo.Worker.Metrics.Rate.{update-first_since, tracked, first_since, IsTimed}

abbrev row : ℕ → MetricRow ℕ
row t = record { node_id = "w1"; grid_epoch = t; timestamp = ""; metric = "m"; value = t }

abbrev full : List (MetricRow ℕ)
full = row 0 ∷ row 5 ∷ row 10 ∷ row 15 ∷ []

evict_test : evict 15 5 full ≡ row 5 ∷ row 10 ∷ row 15 ∷ []
unfolding evict evict_loop overflows last_epoch count_before skip
evict_test = refl

abbrev steps : List (CollectorStep ℕ)
steps =
    samples (row 0 ∷ [])
    ∷ starts
    ∷ samples (row 5 ∷ [])
    ∷ failed true
    ∷ starts
    ∷ sent
    ∷ samples (row 10 ∷ [])
    ∷ starts
    ∷ []

course_test : (course 15 5 start steps).delivered ≡ row 0 ∷ row 5 ∷ []
unfolding course answered_rows oumigo.Worker.Metrics.collector_step
    oumigo.Worker.Metrics.flush_start oumigo.Worker.Metrics.flush_failed oumigo.Worker.Metrics.drain
    oumigo.Worker.Metrics.append evict evict_loop overflows last_epoch oumigo.Worker.Metrics.restore
course_test = refl

-- The manager had taken the first report, whose answer was lost: its row comes again.
reports_test :
    (course 15 5 start steps).reports
    ≡ record { answered = false; rows = row 0 ∷ [] }
      ∷ record { answered = true; rows = row 0 ∷ row 5 ∷ [] }
      ∷ []
unfolding course oumigo.Worker.Metrics.collector_step oumigo.Worker.Metrics.flush_start
    oumigo.Worker.Metrics.flush_failed oumigo.Worker.Metrics.drain oumigo.Worker.Metrics.append
    evict evict_loop overflows last_epoch oumigo.Worker.Metrics.restore
reports_test = refl

start-IsSub_example :
    let y = course 15 5 start steps in
    IsSub (y.delivered ++ pending y.collector) y.sampled
    × (answered_rows y.reports ≡ y.delivered)
    × All (λ r. IsSub r.rows y.sampled) y.reports
start-IsSub_example = start-IsSub 15 5 steps

steps-InSpan : All (λ s. All (InSpan 15 5 0) (sampled_by s)) steps
steps-InSpan = (
  ((omega arith, omega arith), tt),
  (
    tt,
    (
      ((omega arith, omega arith), tt),
      (tt, (tt, (tt, (((omega arith, omega arith), tt), (tt, tt))))),
    ),
  ),
)

start-InSpan_example :
    let y = course 15 5 start steps in y.delivered ++ pending y.collector ≡ y.sampled
start-InSpan_example = start-InSpan 15 5 0 steps steps-InSpan

abbrev whole : Floats ℕ
whole = record { grown = leb; per_minute = λ a b w. ((b - a) * 60) / w }

abbrev slots : List (ℕ × Option ℕ)
slots = (0, some 1) ∷ (5, none) ∷ (60, some 4) ∷ (200, some 10) ∷ []

slots-IsTimed : IsTimed 0 240 slots
slots-IsTimed = (omega arith, (omega arith, (omega arith, (omega arith, omega arith))))

rate_test : (update whole 240 (some 13) (tracked whole [] slots)).1 ≡ some 3
unfolding update oumigo.Worker.Metrics.rate_from oumigo.Worker.Metrics.pop_before tracked
rate_test = refl

update-first_since_example : ((update whole 240 (some 13) (tracked whole [] slots)).1 ≡ some 3) ↔ (
    (e : ℕ) × (v : ℕ) × (first_since 60 slots ≡ some (e, v))
    × (e + 60 ≤ 240)
    × (leb v 13 ≡ true)
    × (3 ≡ ((13 - v) * 60) / (240 - e)))
update-first_since_example = update-first_since whole 240 13 slots 3 slots-IsTimed

-- No rate where the count went back, or where it is young.
no_rate_test :
    ((update whole 240 (some 3) (tracked whole [] slots)).1 ≡ none)
    × ((update whole 59 (some 9) (tracked whole [] ((0, some 1) ∷ []))).1 ≡ none)
unfolding update oumigo.Worker.Metrics.rate_from oumigo.Worker.Metrics.pop_before tracked
no_rate_test = (refl, refl)
