-- ===== src/Usage/Counting.antt =====
-- The totals of pkg/usage: a counter's conversion of ticks, and a gauge's spans.
use sandboxer.Prelude.{
  ℕ, ◌+◌, ◌-◌, ◌*◌, ◌%◌, ◌^◌, ◌<◌, ◌≤◌, ◌≡◌, ◌≢◌, Option, none, some, ltb, leb, ◌==◌, if◌then◌else◌,
  ◌||◌, ◌&&◌, Bool, true, false, arith, ◌⊎◌, inl, inr, refl, max, Option-cases,
}
use sandboxer.Usage.Number.{
  Uint128, IsUint128, value, add, product, div, add64, average, add-value, product-value, div-value,
  div-IsUint128,
}
use sandboxer.Usage.Accumulate.{
  Counter, UsageError, overflow, second, convert, observe_counter, Gauge, Window, raise_peak, cover,
  extend, settle, ok, invalid_status, and_settle, or_overflow, observe_gauge, merge_window,
}

distribute : (t n q h r x : ℕ) → t ≡ n + q → q * h + r ≡ x → t * h + r ≡ n * h + x
distribute t n q h r x e d = rw e (omega arith)

convert-total :
    (source raw hertz delta : ℕ) (n : Counter) (failed : Option UsageError × Counter) (c' : Counter)
    → 0 < hertz
    → delta < 2 ^ 64
    → n.remainder < 2 ^ 64
    → IsUint128 n.known_total
    → failed.0 ≢ none
    → convert source raw hertz delta n failed ≡ (none, c')
    → (value c'.known_total * hertz + c'.remainder
        ≡ value n.known_total * hertz + n.remainder + delta * second)
      × (c'.remainder < hertz)
      × IsUint128 c'.known_total
      × (c'.last_raw ≡ raw)
      × (c'.hertz ≡ hertz)
unfolding convert
convert-total source raw hertz delta n failed c' pos small rest known fails e =
    let q = product delta second in
    let r : Uint128 = record { hi = 0; lo = n.remainder } in
    elim (Option-cases (add q r)) [
      | inl h ↦ absurd (ground (arith, fails, h))
      | inr (quantity, h) ↦ elim (Option-cases (add n.known_total (div quantity hertz).0)) [
        | inl k ↦ absurd (ground (arith, fails, h, k))
        | inr (total, k) ↦
            let p = product-value delta second small (omega arith) in
            let s = add-value q r quantity p.2 (omega arith, rest) h in
            let d = div-value quantity hertz pos in
            let t =
              add-value n.known_total (div quantity hertz).0 total known
                (div-IsUint128 quantity hertz s.1 pos) k in
            let m =
              distribute (value total) (value n.known_total) (value (div quantity hertz).0) hertz
                (div quantity hertz).1 (value quantity) t.0 d.0 in
            ground (arith, h, k, p, s, d, t, m)
      ]
    ]

-- A counter as Observe leaves it, with everything in range.
pub record IsCounter (c : Counter) : Type 0 where
  pub total : IsUint128 c.known_total
  pub raw : c.last_raw < 2 ^ 64
  pub rest : c.remainder < 2 ^ 64

-- No tick is lost to rounding: when Observe accepts a reading of the source it already follows, the
-- scale is unchanged and the reading has not decreased; the total in nanoseconds times the ticks a
-- second, plus the remainder, grows by exactly the new ticks times a second; and the remainder
-- stays below one tick.
pub observe_counter_exact :
    (source raw hertz : ℕ) (created : Bool) (c c' : Counter)
    → IsCounter c
    → raw < 2 ^ 64
    → hertz < 2 ^ 64
    → c.source_known ≡ true
    → c.source ≡ source
    → observe_counter source raw hertz created c ≡ (none, c')
    → (value c'.known_total * c'.hertz + c'.remainder
        ≡ value c.known_total * c.hertz + c.remainder + (raw - c.last_raw) * second)
      × (c.last_raw ≤ raw)
      × (c'.last_raw ≡ raw)
      × (c'.hertz ≡ c.hertz)
      × (c'.remainder < c.hertz)
      × IsCounter c'
unfolding observe_counter
observe_counter_exact source raw hertz created c c' w small scale known same e =
    let failed : Option UsageError × Counter = (some overflow, c) in
    let t =
      convert-total source raw hertz (raw - c.last_raw) c failed c' (ground arith) (omega arith)
        w.rest w.total (ground arith) in
    ground (arith, t, w.total, w.raw, w.rest)

-- What a gauge keeps between its totals.
pub record IsGauge (g : Gauge) : Type 0 where
  pub covered : g.covered_total ≤ g.span_total
  pub window_covered : g.window.covered ≤ g.window.span
  pub span : g.span_total < 2 ^ 64
  pub window_span : g.window.span < 2 ^ 64
  pub within : g.window.span ≤ g.span_total

raise_peak_lem :
    (v at : ℕ) (w : Window)
    → ((raise_peak v at w).covered ≡ w.covered) × ((raise_peak v at w).span ≡ w.span)
unfolding raise_peak
raise_peak_lem v at w = ground arith

-- What extending a gauge by an interval does to its spans, where it does not overflow.
record Extended (dt : ℕ) (g g' : Gauge) : Type 0 where
  spans : (g'.span_total ≡ g.span_total + dt) × (g'.window.span ≡ g.window.span + dt)
  fits : (g'.span_total < 2 ^ 64) × (g'.window.span < 2 ^ 64)
  covers :
      ((g'.covered_total ≡ g.covered_total) × (g'.window.covered ≡ g.window.covered))
      ⊎ ((g'.covered_total ≡ g.covered_total + dt) × (g'.window.covered ≡ g.window.covered + dt))

-- What covering an interval does to the totals, where it does not overflow.
cover_lem :
    (dt : ℕ) (g g' : Gauge)
    → cover dt g ≡ some g'
    → (g'.span_total ≡ g.span_total)
      × (g'.window.span ≡ g.window.span)
      × (g'.covered_total ≡ g.covered_total + dt)
      × (g'.window.covered ≡ g.window.covered + dt)
unfolding cover add64 raise_peak
cover_lem dt g g' e = ground arith

extend-Extended :
    (dt : ℕ) (counts : Bool) (g g' : Gauge) → extend dt counts g ≡ some g' → Extended dt g g'
unfolding extend add64
extend-Extended dt counts g g' e = ground (
  arith,
  cover_lem dt
      (record g {
        span_total = g.span_total + dt;
        window = record g.window { span = g.window.span + dt };
      })
      g',
)

settle_lem :
    (source at value status width : ℕ) (g g' : Gauge)
    → settle source at value status width g ≡ some g'
    → (g'.span_total ≡ g.span_total)
      × (g'.window.span ≡ g.window.span)
      × (g'.covered_total ≡ g.covered_total)
      × (g'.window.covered ≡ g.window.covered)
unfolding settle add64
settle_lem source at value status width g g' e = ground (arith, raise_peak_lem value at g.window)

-- The gauge keeps its totals in order, and an error leaves it as it was.
abbrev Kept : Gauge → Option UsageError × Gauge → Type 0
Kept g r = IsGauge r.1 × ((r.0 ≡ none) ⊎ (r.1 ≡ g))

or_overflow-Kept :
    (g : Gauge) (o : Option Gauge)
    → IsGauge g
    → ((n : Gauge) → o ≡ some n → IsGauge n)
    → Kept g (or_overflow g o)
or_overflow-Kept g none w h = (w, inr refl)
or_overflow-Kept g (some n) w h = (h n refl, inl refl)

and_settle-IsGauge :
    (source at value status width : ℕ) (o : Option Gauge)
    → ((n : Gauge) → o ≡ some n → IsGauge n)
    → (n : Gauge) → and_settle source at value status width o ≡ some n
    → IsGauge n
unfolding and_settle
and_settle-IsGauge source at value status width none h n e = absurd (ground arith)
and_settle-IsGauge source at value status width (some g) h n e =
    let w = h g refl in
    ground (
      arith,
      w.covered,
      w.window_covered,
      w.span,
      w.window_span,
      w.within,
      settle_lem source at value status width g n e,
    )

started-IsGauge :
    (dt : ℕ) (known counts : Bool) (g n : Gauge)
    → IsGauge g
    → (if known then extend dt counts g else some g) ≡ some n
    → IsGauge n
started-IsGauge dt true counts g n w e = ground (arith, w, extend-Extended dt counts g n e)
started-IsGauge dt false counts g n w e = ground (arith, w)

-- In every branch of Observe, the time a gauge has covered stays within the time it spans, in its
-- totals and in its window, the window's span stays within the total one, and no span wraps; and
-- where Observe returns an error, the gauge is what it was.
pub observe_gauge_lem :
    (source request at value status width interval : ℕ) (g : Gauge)
    → IsGauge g
    → IsGauge (observe_gauge source request at value status width interval g).1
      × (((observe_gauge source request at value status width interval g).0 ≡ none)
          ⊎ ((observe_gauge source request at value status width interval g).1 ≡ g))
unfolding observe_gauge
observe_gauge_lem source request at value given width interval g w =
    let n : Gauge = record g { last_request = request } in
    let status = if leb (2 ^ 63) width || ltb interval width then invalid_status else given in
    let dt = (at + 2 ^ 64 - g.last_at) % 2 ^ 64 in
    let counts = g.continuous && status == ok && leb dt (2 * interval) in
    let start = if g.position_known && source == g.source then extend dt counts n else some n in
    let done = or_overflow-Kept g (and_settle source at value status width start) w (
      and_settle-IsGauge source at value status width start (λ m e.
        started-IsGauge dt (g.position_known && source == g.source) counts n m (ground (arith, w))
          e)) in
    ground (arith, w, done)

-- mergeWindow, when it does not overflow, adds the areas, spans, covered times and samples of the two
-- windows exactly, takes the longer of the read windows, and keeps as peak a value that either
-- window knows and that no known peak exceeds.
pub merge_window_exact :
    (a b w : Window)
    → IsUint128 a.area
    → IsUint128 b.area
    → merge_window a b ≡ some w
    → (value w.area ≡ value a.area + value b.area)
      × (w.span ≡ a.span + b.span)
      × (w.covered ≡ a.covered + b.covered)
      × (w.samples ≡ a.samples + b.samples)
      × (w.max_read_window ≡ max a.max_read_window b.max_read_window)
      × (w.peak_known ≡ (a.peak_known || b.peak_known))
      × ((a.peak_known ≡ false) ⊎ (a.peak ≤ w.peak))
      × ((b.peak_known ≡ false) ⊎ (b.peak ≤ w.peak))
unfolding merge_window add64 raise_peak
merge_window_exact a b w u v e = elim (Option-cases (add a.area b.area)) [
  | inl h ↦ absurd (ground (arith, h))
  | inr (area, h) ↦ ground (arith, h, add-value a.area b.area area u v h)
]

-- Average is the floor of the area over the covered time, where the covered time is not zero and
-- the quotient fits 64 bits.
pub average_floor :
    (area : Uint128) (covered q : ℕ)
    → average area covered ≡ some q
    → (q * covered ≤ value area) × (value area < q * covered + covered)
unfolding average
average_floor area covered q e = ground (arith, div-value area covered)
