-- ===== src/Usage/Accumulate.antt =====
-- pkg/usage/accumulate.go: cumulative gauges and counters. A string is a number, 0 the empty one;
-- an int64 is its 64-bit pattern. Each method runs under its caller's lock.
use sandboxer.Prelude.{
  ℕ, ◌+◌, ◌-◌, ◌*◌, ◌%◌, ◌^◌, Option, none, some, ltb, leb, ◌==◌, if◌then◌else◌, ◌||◌, ◌&&◌, not,
  Bool, true, false,
}
use sandboxer.Prelude.Int.{int_pos}
use sandboxer.Usage.Number.{Uint128, add, product, div, add64}

-- The statuses.
abbrev pub ok : ℕ
ok = 1

abbrev pub missing : ℕ
missing = 2

abbrev pub invalid_status : ℕ
invalid_status = 4

-- time.Second.
abbrev pub second : ℕ
second = 1000000000

pub data UsageError : Type 0 where
  overflow bad_interval bad_counter regression : UsageError

pub record Window : Type 0 where
  pub area : Uint128
  pub span : ℕ
  pub covered : ℕ
  pub peak : ℕ
  pub peak_at : ℕ
  pub peak_known : Bool
  pub samples : ℕ
  pub max_read_window : ℕ

-- Window.peak.
unfoldable pub raise_peak : ℕ → ℕ → Window → Window
raise_peak value at w =
    if not w.peak_known || ltb w.peak value
    then record w { peak = value; peak_at = at; peak_known = true }
    else w

-- mergeWindow; none is ErrOverflow.
unfoldable pub merge_window : Window → Window → Option Window
merge_window a b = elim (add a.area b.area) [
  | none ↦ none
  | some area ↦ elim (add64 a.span b.span) [
    | none ↦ none
    | some span ↦ elim (add64 a.covered b.covered) [
      | none ↦ none
      | some covered ↦ elim (add64 a.samples b.samples) [
        | none ↦ none
        | some samples ↦
            let sum : Window = record b {
              area = area;
              span = span;
              covered = covered;
              samples = samples;
            } in
            let out = if a.peak_known then raise_peak a.peak a.peak_at sum else sum in
            some (
              if ltb out.max_read_window a.max_read_window
              then record out { max_read_window = a.max_read_window }
              else out)
      ]
    ]
  ]
]

-- The name, which no operation reads, is left out.
pub record Gauge : Type 0 where
  pub source : ℕ
  pub integral_total : Uint128
  pub span_total : ℕ
  pub covered_total : ℕ
  pub last_value : ℕ
  pub last_value_at : ℕ
  pub last_at : ℕ
  pub last_request : ℕ
  pub position_known : Bool
  pub value_known : Bool
  pub continuous : Bool
  pub status : ℕ
  pub window : Window

-- a <= b of two int64.
abbrev pub le_int64 : ℕ → ℕ → Bool
le_int64 a b = leb ((a + 2 ^ 63) % 2 ^ 64) ((b + 2 ^ 63) % 2 ^ 64)

-- The interval since the last attempt counts as covered.
unfoldable pub cover : ℕ → Gauge → Option Gauge
cover dt g = elim (add g.integral_total (product g.last_value dt)) [
  | none ↦ none
  | some integral ↦ elim (add g.window.area (product g.last_value dt)) [
    | none ↦ none
    | some area ↦ elim (add64 g.covered_total dt) [
      | none ↦ none
      | some total ↦ elim (add64 g.window.covered dt) [
        | none ↦ none
        | some covered ↦ some (record g {
          integral_total = integral;
          covered_total = total;
          window =
              raise_peak g.last_value g.last_value_at
                (record g.window { area = area; covered = covered });
        })
      ]
    ]
  ]
]

-- The interval since the last attempt of the same source; `counts` is whether it has a value.
unfoldable pub extend : ℕ → Bool → Gauge → Option Gauge
extend dt counts g = elim (add64 g.span_total dt) [
  | none ↦ none
  | some total ↦ elim (add64 g.window.span dt) [
    | none ↦ none
    | some span ↦
        let spanned : Gauge = record g {
          span_total = total;
          window = record g.window { span = span };
        } in
        if counts then cover dt spanned else some spanned
  ]
]

-- The new boundary, and a valid value.
unfoldable pub settle : ℕ → ℕ → ℕ → ℕ → ℕ → Gauge → Option Gauge
settle source at value status width g =
    let bounded : Gauge = record g {
      last_at = at;
      position_known = true;
      source = source;
      status = status;
      continuous = status == ok;
    } in
    let raised = raise_peak value at g.window in
    if not (status == ok) then some bounded else elim (add64 raised.samples 1) [
      | none ↦ none
      | some samples ↦ some (record bounded {
        last_value = value;
        last_value_at = at;
        value_known = true;
        window = record raised {
          samples = samples;
          max_read_window =
              if ltb raised.max_read_window width then width else raised.max_read_window;
        };
      })
    ]

abbrev pub or_overflow : Gauge → Option Gauge → Option UsageError × Gauge
or_overflow g none = (some overflow, g)
or_overflow g (some n) = (none, n)

unfoldable pub and_settle : ℕ → ℕ → ℕ → ℕ → ℕ → Option Gauge → Option Gauge
and_settle source at value status width none = none
and_settle source at value status width (some n) = settle source at value status width n

-- Gauge.Observe. An arithmetic failure leaves the gauge as it was.
unfoldable pub observe_gauge : ℕ → ℕ → ℕ → ℕ → ℕ → ℕ → ℕ → Gauge → Option UsageError × Gauge
unfolding and_settle
observe_gauge source request at value given width interval g =
    let n : Gauge = record g { last_request = request } in
    let status = if leb (2 ^ 63) width || ltb interval width then invalid_status else given in
    let dt = (at + 2 ^ 64 - g.last_at) % 2 ^ 64 in
    let counts = g.continuous && status == ok && leb dt (2 * interval) in
    if request == 0 || leb request g.last_request
    then (none, g)
    else if not (int_pos interval) || ltb (2 ^ 62 - 1) interval
    then (some bad_interval, g)
    else if g.position_known && le_int64 at g.last_at
    then (none, record n { continuous = false; status = invalid_status })
    else or_overflow g (
        and_settle source at value status width
          (if g.position_known && source == g.source then extend dt counts n else some n))

-- Gauge.Break.
unfoldable pub break_gauge : ℕ → Gauge → Gauge
break_gauge status g = record g {
  position_known = false;
  continuous = false;
  value_known = false;
  status = status;
}

-- The name, which no operation reads, is left out.
pub record Counter : Type 0 where
  pub source : ℕ
  pub known_total : Uint128
  pub last_raw : ℕ
  pub hertz : ℕ
  pub remainder : ℕ
  pub source_known : Bool
  pub complete : Bool
  pub status : ℕ

-- The conversion of `delta` ticks, with the remainder of the last one.
unfoldable pub convert :
    ℕ → ℕ → ℕ → ℕ → Counter → Option UsageError × Counter → Option UsageError × Counter
convert source raw hertz delta n failed =
    elim (add (product delta second) (record { hi = 0; lo = n.remainder })) [
      | none ↦ failed
      | some quantity ↦ elim (add n.known_total (div quantity hertz).0) [
        | none ↦ failed
        | some total ↦ (
          none,
          record n {
            known_total = total;
            source = source;
            last_raw = raw;
            hertz = hertz;
            remainder = (div quantity hertz).1;
            source_known = true;
            status = ok;
          },
        )
      ]
    ]

-- Whether the totals are complete after a change of source.
unfoldable pub complete_after : Bool → Counter → Bool
complete_after created c =
    if c.source_known then false else if c.status == 0 then created else c.complete && created

-- Counter.Observe.
unfoldable pub observe_counter : ℕ → ℕ → ℕ → Bool → Counter → Option UsageError × Counter
observe_counter source raw hertz created c =
    let failed : Option UsageError × Counter = (some overflow, c) in
    if source == 0 || hertz == 0
    then (some bad_counter, c)
    else if c.source_known && c.source == source
    then (if not (hertz == c.hertz) || ltb raw c.last_raw
        then (some regression, record c { complete = false; status = invalid_status })
        else convert source raw hertz (raw - c.last_raw) c failed)
    else convert source raw hertz (if created then raw else 0)
        (record c { complete = complete_after created c; remainder = 0 }) failed
