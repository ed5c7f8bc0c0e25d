-- ===== src/Usage/Tests.antt =====
-- The theorems about pkg/usage at concrete inputs.
use sandboxer.Prelude.{◌+◌, ◌-◌, ◌*◌, ◌≡◌, ◌≤◌, ◌<◌, refl, none, some, true, false, arith, ◌⊎◌}
use sandboxer.Usage.Number.{value, average, add, add64, product, div}
use sandboxer.Usage.Accumulate.{
  Counter, Gauge, Window, second, ok, observe_counter, observe_gauge, merge_window, raise_peak,
  convert,
}
use sandboxer.Usage.Counting.{IsCounter, observe_counter_exact, IsGauge, observe_gauge_lem}

-- A counter of 300 ticks a second that holds 100 ticks.
abbrev counter : Counter
counter = record {
  source = 7;
  known_total = record { hi = 0; lo = 333333333 };
  last_raw = 100;
  hertz = 300;
  remainder = 100;
  source_known = true;
  complete = true;
  status = ok;
}

abbrev counted : Counter
counted = record {
  source = 7;
  known_total = record { hi = 0; lo = 500000000 };
  last_raw = 150;
  hertz = 300;
  remainder = 0;
  source_known = true;
  complete = true;
  status = ok;
}

counter-IsCounter : IsCounter counter
counter-IsCounter = record {
  total = (omega arith, omega arith);
  raw = omega arith;
  rest = omega arith;
}

observe_counter-counted : observe_counter 7 150 300 false counter ≡ (none, counted)
unfolding observe_counter convert product add div
observe_counter-counted = refl

observe_counter_exact_example :
    (value counted.known_total * counted.hertz + counted.remainder
      ≡ value counter.known_total * counter.hertz + counter.remainder + (150 - 100) * second)
    × (counter.last_raw ≤ 150)
    × (counted.last_raw ≡ 150)
    × (counted.hertz ≡ counter.hertz)
    × (counted.remainder < counter.hertz)
    × IsCounter counted
observe_counter_exact_example =
    observe_counter_exact 7 150 300 false counter counted counter-IsCounter (omega arith)
      (omega arith) refl refl observe_counter-counted

abbrev window : Window
window = record {
  area = record { hi = 0; lo = 5000 };
  span = 20;
  covered = 10;
  peak = 500;
  peak_at = 3;
  peak_known = true;
  samples = 2;
  max_read_window = 1;
}

abbrev later : Window
later = record {
  area = record { hi = 0; lo = 7000 };
  span = 30;
  covered = 10;
  peak = 700;
  peak_at = 40;
  peak_known = true;
  samples = 1;
  max_read_window = 4;
}

abbrev both : Window
both = record {
  area = record { hi = 0; lo = 12000 };
  span = 50;
  covered = 20;
  peak = 700;
  peak_at = 40;
  peak_known = true;
  samples = 3;
  max_read_window = 4;
}

merge_window-both : merge_window window later ≡ some both
unfolding merge_window add add64 raise_peak
merge_window-both = refl

average-six : average both.area both.covered ≡ some 600
unfolding average div
average-six = refl

abbrev gauge : Gauge
gauge = record {
  source = 7;
  integral_total = record { hi = 0; lo = 5000 };
  span_total = 20;
  covered_total = 10;
  last_value = 500;
  last_value_at = 20;
  last_at = 20;
  last_request = 2;
  position_known = true;
  value_known = true;
  continuous = true;
  status = ok;
  window = window;
}

gauge-IsGauge : IsGauge gauge
gauge-IsGauge = record {
  covered = omega arith;
  window_covered = omega arith;
  span = omega arith;
  window_span = omega arith;
  within = omega arith;
}

observe_gauge_lem_example :
    IsGauge (observe_gauge 7 3 30 600 ok 2 10 gauge).1
    × (((observe_gauge 7 3 30 600 ok 2 10 gauge).0 ≡ none)
        ⊎ ((observe_gauge 7 3 30 600 ok 2 10 gauge).1 ≡ gauge))
observe_gauge_lem_example = observe_gauge_lem 7 3 30 600 ok 2 10 gauge gauge-IsGauge
