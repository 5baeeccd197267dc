-- ===== src/Worker/Metrics/Delivery.antt =====
-- What becomes of the sampled rows: the sampler and the reporter on one buffer.
use oumigo.Prelude.{
  Bool, true, if◌then◌else◌, Bool-cases, All-map, ℕ, ◌+◌, ◌≤◌, ◌<◌, ◌≡◌, refl, sym, ap, subst, ◌∙◌,
  false, List, [], ◌∷◌, ◌++◌, arith, inl, inr, All, append_assoc, append-nil, Option, none, some,
}
use oumigo.Worker.Metrics.{
  MetricRow, last_epoch, overflows, append, restore, drain, evict, Collector, CollectorStep,
  samples, starts, sent, failed, Report, report_of, lost_report, batch_of, collector_step,
  flush_start, flush_failed,
}
use oumigo.Worker.Metrics.Sublists.{
  IsSub, IsSub-refl, IsSub-trans, IsSub-left, IsSub-right, IsSub-suffix, IsSub-prefix,
  All-append-right, All-append,
}
use oumigo.Worker.Metrics.Eviction.{evict-suffix, evict_rest}

-- The rows of the reports whose send returned.
unfoldable pub answered_rows : {V : Type 0} → List (Report V) → List (MetricRow V)
answered_rows [] = []
answered_rows (r ∷ reports) =
    let rest = answered_rows reports in if r.answered then r.rows ++ rest else rest

-- The collector, with all that it delivered by a send that returned, the reports that reached the
-- manager, and all that was sampled, oldest first.
pub record Course (V : Type 0) : Type 0 where
  pub collector : Collector V
  pub delivered : List (MetricRow V)
  pub reports : List (Report V)
  pub sampled : List (MetricRow V)

module _ {V : Type 0} where
  abbrev pub sampled_by : CollectorStep V → List (MetricRow V)
  sampled_by (samples rows) = rows
  sampled_by starts = []
  sampled_by sent = []
  sampled_by (failed reached) = []

  abbrev pub start : Course V
  start = record {
    collector = record { buffer = []; sending = none };
    delivered = [];
    reports = [];
    sampled = [];
  }

  -- The rows that are on their way.
  abbrev pub pending : Collector V → List (MetricRow V)
  pending c = batch_of c.sending ++ c.buffer

  module _ (capacity chunk : ℕ) where
    abbrev advance : Course V → CollectorStep V → Course V
    advance x s =
        let (c, reports) = collector_step capacity chunk x.collector s in
        record {
          collector = c;
          delivered = x.delivered ++ answered_rows reports;
          reports = x.reports ++ reports;
          sampled = x.sampled ++ sampled_by s;
        }

    unfoldable pub course : Course V → List (CollectorStep V) → Course V
    course x [] = x
    course x (s ∷ steps) = course (advance x s) steps

    append-IsSub :
        (rows buffer : List (MetricRow V))
        → IsSub (append capacity chunk rows buffer) (buffer ++ rows)
    unfolding append
    append-IsSub rows buffer =
        let (old, e) = evict-suffix capacity chunk (buffer ++ rows) in
        subst (IsSub (evict capacity chunk (buffer ++ rows))) (sym e) (IsSub-suffix old _)

    pending-flush_start :
        (buffer : List (MetricRow V)) (o : Option (List (MetricRow V)))
        → pending (flush_start buffer o) ≡ batch_of o ++ buffer
    unfolding flush_start drain
    pending-flush_start buffer (some rows) = refl
    pending-flush_start [] none = refl
    pending-flush_start (r ∷ rows) none = append-nil (r ∷ rows)

    pending-flush_failed :
        (buffer : List (MetricRow V)) (o : Option (List (MetricRow V)))
        → IsSub (pending (flush_failed capacity chunk buffer o)) (batch_of o ++ buffer)
    unfolding flush_failed restore
    pending-flush_failed buffer none = IsSub-refl buffer
    pending-flush_failed buffer (some rows) =
        let (old, e) = evict-suffix capacity chunk (rows ++ buffer) in
        subst (IsSub (evict capacity chunk (rows ++ buffer))) (sym e) (IsSub-suffix old _)

    answered_rows-report_of :
        (o : Option (List (MetricRow V))) → answered_rows (report_of true o) ≡ batch_of o
    unfolding answered_rows
    answered_rows-report_of none = refl
    answered_rows-report_of (some rows) = append-nil rows

    answered_rows-lost_report :
        (b : Bool) (o : Option (List (MetricRow V))) → answered_rows (lost_report b o) ≡ []
    unfolding answered_rows
    answered_rows-lost_report false o = refl
    answered_rows-lost_report true none = refl
    answered_rows-lost_report true (some rows) = refl

    -- What a step delivers and what is then on its way are rows that were on their way or are new.
    step-IsSub :
        (c : Collector V) (s : CollectorStep V)
        → let (d, reports) = collector_step capacity chunk c s in
          IsSub (answered_rows reports ++ pending d) (pending c ++ sampled_by s)
    unfolding collector_step answered_rows
    step-IsSub c (samples []) =
        subst (IsSub (pending c)) (sym (append-nil (pending c))) (IsSub-refl (pending c))
    step-IsSub c (samples (r ∷ rows)) =
        subst (IsSub _) (sym (append_assoc (batch_of c.sending) c.buffer (r ∷ rows)))
          (IsSub-left (batch_of c.sending) _ _ (append-IsSub (r ∷ rows) c.buffer))
    step-IsSub c starts =
        subst (λ t. IsSub t (pending c ++ []))
          (append-nil (pending c) ∙ sym (pending-flush_start c.buffer c.sending))
          (IsSub-refl (pending c ++ []))
    step-IsSub c sent =
        subst (λ t. IsSub (t ++ c.buffer) (pending c ++ []))
          (sym (answered_rows-report_of c.sending))
          (subst (IsSub (pending c)) (sym (append-nil (pending c))) (IsSub-refl (pending c)))
    step-IsSub c (failed b) =
        let d = flush_failed capacity chunk c.buffer c.sending in
        subst (λ t. IsSub (t ++ pending d) (pending c ++ []))
          (sym (answered_rows-lost_report b c.sending))
          (subst (IsSub _) (sym (append-nil (pending c))) (pending-flush_failed c.buffer c.sending))

    advance-IsSub :
        (x : Course V) (s : CollectorStep V)
        → IsSub (x.delivered ++ pending x.collector) x.sampled
        → let y = advance x s in IsSub (y.delivered ++ pending y.collector) y.sampled
    advance-IsSub x s h =
        let (c, reports) = collector_step capacity chunk x.collector s in
        subst (λ t. IsSub t (x.sampled ++ sampled_by s))
          (sym (append_assoc x.delivered (answered_rows reports) (pending c)))
          (IsSub-trans _ _ _ (IsSub-left x.delivered _ _ (step-IsSub x.collector s)) (
            subst (λ t. IsSub t (x.sampled ++ sampled_by s))
              (append_assoc x.delivered (pending x.collector) (sampled_by s))
              (IsSub-right _ _ (sampled_by s) h)))

    report_of-IsSub :
        (b : Bool) (o : Option (List (MetricRow V))) (ys : List (MetricRow V))
        → IsSub (batch_of o) ys
        → All (λ r. IsSub r.rows ys) (report_of b o)
    report_of-IsSub b none ys h = tt
    report_of-IsSub b (some rows) ys h = (h, tt)

    -- A report that reaches the manager is what was being sent.
    step-reports :
        (c : Collector V) (s : CollectorStep V) (ys : List (MetricRow V))
        → IsSub (batch_of c.sending) ys
        → All (λ r. IsSub r.rows ys) (collector_step capacity chunk c s).1
    unfolding collector_step
    step-reports c (samples []) ys h = tt
    step-reports c (samples (r ∷ rows)) ys h = tt
    step-reports c starts ys h = tt
    step-reports c sent ys h = report_of-IsSub true c.sending ys h
    step-reports c (failed false) ys h = tt
    step-reports c (failed true) ys h = report_of-IsSub false c.sending ys h

    answered_rows-append :
        (xs ys : List (Report V)) → answered_rows (xs ++ ys) ≡ answered_rows xs ++ answered_rows ys
    unfolding answered_rows
    answered_rows-append [] ys = refl
    answered_rows-append (x ∷ xs) ys = elim (Bool-cases x.answered) [
      | inl e ↦ rw e (
          ap (λ t. x.rows ++ t) (answered_rows-append xs ys)
          ∙ sym (append_assoc x.rows (answered_rows xs) (answered_rows ys)))
      | inr e ↦ rw e (answered_rows-append xs ys)
    ]

    pub record IsKept (y : Course V) : Type 0 where
      pub in_order : IsSub (y.delivered ++ pending y.collector) y.sampled
      pub answered : answered_rows y.reports ≡ y.delivered
      pub genuine : All (λ r. IsSub r.rows y.sampled) y.reports

    course-IsKept :
        (x : Course V) (steps : List (CollectorStep V)) → IsKept x → IsKept (course x steps)
    unfolding course
    course-IsKept x [] i = i
    course-IsKept x (s ∷ steps) i = course-IsKept (advance x s) steps (
        let (c, reports) = collector_step capacity chunk x.collector s in
        let now = x.sampled ++ sampled_by s in
        let grows = IsSub-prefix x.sampled (sampled_by s) in
        let batch = batch_of x.collector.sending in
        let sending : IsSub batch now = IsSub-trans _ _ _ (IsSub-prefix batch x.collector.buffer) (
          IsSub-trans _ _ _ (IsSub-suffix x.delivered (pending x.collector))
            (IsSub-trans _ _ _ i.in_order grows)) in
        record {
          in_order = advance-IsSub x s i.in_order;
          answered =
              answered_rows-append x.reports reports
              ∙ ap (λ t. t ++ answered_rows reports) i.answered;
          genuine =
              All-append _ x.reports reports
                (All-map (λ r h. IsSub-trans r.rows x.sampled now h grows) x.reports i.genuine)
                (step-reports x.collector s now sending);
        })

    -- A row whose send was answered is not sent again, and nothing is out of order. Whatever the
    -- sampler and the reporter do, and however often a send fails, whether or not it had reached
    -- the manager: what answered reports delivered, then what is being sent, then what is in the
    -- buffer, are rows that were sampled, in the order in which they were, each at most as often;
    -- the delivered rows are just those of the reports that reached the manager and were answered;
    -- and every report that reached it, answered or not, is rows that were sampled, in their order,
    -- each at most as often. The rows of a report without an answer may come again in a later one.
    pub start-IsSub :
        (steps : List (CollectorStep V))
        → let y = course start steps in
          IsSub (y.delivered ++ pending y.collector) y.sampled
          × (answered_rows y.reports ≡ y.delivered)
          × All (λ r. IsSub r.rows y.sampled) y.reports
    unfolding answered_rows
    start-IsSub steps =
        let i =
          course-IsKept start steps (record { in_order = refl; answered = refl; genuine = tt }) in
        (i.in_order, i.answered, i.genuine)

module _ {V : Type 0} (capacity chunk low : ℕ) where
  -- The slot of a row is in a span of the capacity.
  abbrev pub InSpan : MetricRow V → Type 0
  InSpan r = (low ≤ r.grid_epoch) × r.grid_epoch < low + capacity

  last_epoch-InSpan :
      (r : MetricRow V) (rows : List (MetricRow V))
      → All InSpan (r ∷ rows)
      → last_epoch r rows < low + capacity
  unfolding last_epoch
  last_epoch-InSpan r [] h = h.0.1
  last_epoch-InSpan r (q ∷ rows) h = last_epoch-InSpan q rows h.1

  overflows-InSpan :
      (rows : List (MetricRow V)) → All InSpan rows → overflows capacity chunk rows ≡ false
  unfolding overflows
  overflows-InSpan [] h = refl
  overflows-InSpan (r ∷ rows) h = ground (arith, last_epoch-InSpan r rows h, h.0)

  evict-InSpan : (rows : List (MetricRow V)) → All InSpan rows → evict capacity chunk rows ≡ rows
  evict-InSpan rows h = evict_rest capacity chunk rows (overflows-InSpan rows h)

  failed-InSpan :
      (buffer : List (MetricRow V)) (o : Option (List (MetricRow V)))
      → All InSpan (batch_of o ++ buffer)
      → pending (flush_failed capacity chunk buffer o) ≡ batch_of o ++ buffer
  unfolding flush_failed restore
  failed-InSpan buffer none h = refl
  failed-InSpan buffer (some rows) h = evict-InSpan (rows ++ buffer) h

  step-InSpan :
      (c : Collector V) (s : CollectorStep V)
      → All InSpan (pending c)
      → All InSpan (sampled_by s)
      → let (d, reports) = collector_step capacity chunk c s in
        answered_rows reports ++ pending d ≡ pending c ++ sampled_by s
  unfolding collector_step append answered_rows
  step-InSpan c (samples []) h k = sym (append-nil (pending c))
  step-InSpan c (samples (r ∷ rows)) h k =
      ap (λ t. batch_of c.sending ++ t)
        (evict-InSpan (c.buffer ++ r ∷ rows) (
          All-append InSpan c.buffer (r ∷ rows)
            (All-append-right InSpan (batch_of c.sending) c.buffer h) k))
      ∙ sym (append_assoc (batch_of c.sending) c.buffer (r ∷ rows))
  step-InSpan c starts h k =
      pending-flush_start capacity chunk c.buffer c.sending ∙ sym (append-nil (pending c))
  step-InSpan c sent h k =
      ap (λ t. t ++ c.buffer) (answered_rows-report_of capacity chunk c.sending)
      ∙ sym (append-nil (pending c))
  step-InSpan c (failed b) h k =
      let d = flush_failed capacity chunk c.buffer c.sending in
      ap (λ t. t ++ pending d) (answered_rows-lost_report capacity chunk b c.sending)
      ∙ failed-InSpan c.buffer c.sending h
      ∙ sym (append-nil (pending c))

  course-InSpan :
      (x : Course V) (steps : List (CollectorStep V))
      → x.delivered ++ pending x.collector ≡ x.sampled
      → All InSpan x.sampled
      → All (λ s. All InSpan (sampled_by s)) steps
      → let y = course capacity chunk x steps in y.delivered ++ pending y.collector ≡ y.sampled
  unfolding course
  course-InSpan x [] e h k = e
  course-InSpan x (s ∷ steps) e h k =
      let (c, reports) = collector_step capacity chunk x.collector s in
      let rows = answered_rows reports in
      let here =
        All-append-right InSpan x.delivered (pending x.collector) (subst (All InSpan) (sym e) h) in
      course-InSpan (advance capacity chunk x s) steps
        (append_assoc x.delivered rows (pending c)
          ∙ ap (λ t. x.delivered ++ t) (step-InSpan x.collector s here k.0)
          ∙ sym (append_assoc x.delivered (pending x.collector) (sampled_by s))
          ∙ ap (λ t. t ++ sampled_by s) e)
        (All-append InSpan x.sampled (sampled_by s) h k.0) k.1

  -- Nothing is lost: while the slots that are sampled lie in a span of the capacity, what was delivered
  -- by a send that returned, then what is being sent, then what is in the buffer, are just the rows
  -- that were sampled, in their order, however often a send fails, whether or not it had reached the
  -- manager.
  pub start-InSpan :
      (steps : List (CollectorStep V))
      → All (λ s. All InSpan (sampled_by s)) steps
      → let y = course capacity chunk start steps in y.delivered ++ pending y.collector ≡ y.sampled
  start-InSpan steps k = course-InSpan start steps refl tt k
