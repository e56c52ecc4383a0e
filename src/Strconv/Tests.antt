-- ===== src/Strconv/Tests.antt =====
-- Parsing and printing concrete numbers.
use study_project_metrics_an.Base.{◌≡◌, refl, none, some}
use study_project_metrics_an.Wire.{text}
use study_project_metrics_an.Strconv.{parse_int, format_int, digits}

negative : parse_int (text "-12") ≡ some 18446744073709551604
unfolding parse_int
negative = refl

overflow : parse_int (text "9223372036854775808") ≡ none
unfolding parse_int
overflow = refl

lowest : parse_int (text "-9223372036854775808") ≡ some 9223372036854775808
unfolding parse_int
lowest = refl

no_digits : parse_int (text "1_0") ≡ none
unfolding parse_int
no_digits = refl

printed : format_int 18446744073709551604 ≡ text "-12"
unfolding format_int digits
printed = refl
