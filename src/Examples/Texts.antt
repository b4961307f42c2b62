-- ===== src/Examples/Texts.antt =====
-- `formatBytes` and `formatSince` on concrete values.

use elastic_ops.Prelude.{ℕ, ◌*◌, ◌+◌, ◌-◌, ◌≤◌, ◌<◌, String, Option, some, refl}
use elastic_ops.Format.{format_since}
use elastic_ops.Format.Ages.{IsAgeOf, format_since-IsAgeOf}

abbrev parse : String → Option ℕ
parse iso = some 1000

format_since-IsAgeOf_example :
    (s : ℕ) × IsAgeOf s (format_since parse 91000 (some "1970-01-01T00:00:01"))
    × (1000 * s ≤ 91000 - 1000 + 500)
    × (91000 - 1000 < 1000 * s + 500)
format_since-IsAgeOf_example = format_since-IsAgeOf parse 91000 "1970-01-01T00:00:01" 1000 refl refl
