-- ===== src/Cast/Sample.antt =====
-- Operations on real numbers for tests, which have none.
use rellaf.Prelude.{[], ◌==◌}
use rellaf.Cast.{Reals}

abbrev pub no_reals : Reals
no_reals = record {
  strtof = λ s. 0;
  strtod = λ s. 0;
  float_str = λ x. [];
  double_str = λ x. [];
  float_eq = ◌==◌;
  double_eq = ◌==◌;
}
