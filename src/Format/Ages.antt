-- ===== src/Format/Ages.antt =====
-- The labels "Ns ago" that `formatSince` of frontend/src/lib/format.ts prints.
use Prim.Native.String.{◌++◌}
use elastic_ops.Prelude.{
  ℕ, ◌+◌, ◌-◌, ◌*◌, ◌/◌, ◌≤◌, ◌<◌, ◌≡◌, String, true, Option, some, arith, ltb, if◌then◌else◌, inl,
  inr, Bool-cases,
}
use elastic_ops.Prelude.Text.{show, truthy}
use elastic_ops.Format.{seconds_since, since_label, format_since, has_tz}

-- The units of a label, with their length and how many of each a label may count.
pub data Span : Type 0 where
  seconds minutes hours days : Span

abbrev pub secs : Span → ℕ
secs seconds = 1
secs minutes = 60
secs hours = 3600
secs days = 86400

abbrev pub suffix : Span → String
suffix seconds = "s ago"
suffix minutes = "m ago"
suffix hours = "h ago"
suffix days = "d ago"

-- The age at which the next unit takes over; a day has none.
abbrev pub Within : Span → ℕ → Type 0
Within seconds s = s < 60
Within minutes s = (60 ≤ s) × (s < 3600)
Within hours s = (3600 ≤ s) × (s < 86400)
Within days s = 86400 ≤ s

pub record IsAgeOf (s : ℕ) (label : String) : Type 0 where
  pub span : Span
  pub number : ℕ
  pub within : Within span s
  pub at_least : number * secs span ≤ s
  pub less_than : s < (number + 1) * secs span
  pub reads : label ≡ show number ++ suffix span

since_label-IsAgeOf : (s : ℕ) → IsAgeOf s (since_label s)
unfolding since_label
since_label-IsAgeOf s = elim (Bool-cases (ltb s 60)) [
  | inl e ↦ record {
    span = seconds;
    number = s;
    within = ground arith;
    at_least = omega arith;
    less_than = omega arith;
    reads = rw e;
  }
  | inr e ↦ elim (Bool-cases (ltb (s / 60) 60)) [
    | inl f ↦ record {
      span = minutes;
      number = s / 60;
      within = (ground arith, ground arith);
      at_least = omega arith;
      less_than = omega arith;
      reads = rw (e, f);
    }
    | inr f ↦ elim (Bool-cases (ltb (s / 60 / 60) 24)) [
      | inl g ↦ record {
        span = hours;
        number = s / 60 / 60;
        within = (ground arith, ground arith);
        at_least = omega arith;
        less_than = omega arith;
        reads = rw (e, f, g);
      }
      | inr g ↦ record {
        span = days;
        number = s / 60 / 60 / 24;
        within = ground arith;
        at_least = omega arith;
        less_than = omega arith;
        reads = rw (e, f, g);
      }
    ]
  ]
]

module _ (date_ms : String → Option ℕ) (now : ℕ) where
  -- Of a timestamp that parses, with "Z" added where it has no zone, the label counts whole units
  -- of the age in the unit that fits, and the age is the distance from `now` rounded to seconds, or
  -- 0 for a timestamp that lies ahead.
  pub format_since-IsAgeOf :
      (iso : String) (ms : ℕ)
      → truthy iso ≡ true
      → date_ms (if has_tz iso then iso else iso ++ "Z") ≡ some ms
      → (s : ℕ) × IsAgeOf s (format_since date_ms now (some iso))
        × (1000 * s ≤ now - ms + 500)
        × (now - ms < 1000 * s + 500)
  unfolding format_since seconds_since
  format_since-IsAgeOf iso ms t e = (
    seconds_since now ms,
    rw (t, e) (since_label-IsAgeOf (seconds_since now ms)),
    omega arith,
    omega arith,
  )
