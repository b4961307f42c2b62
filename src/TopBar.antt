-- ===== src/TopBar.antt =====
-- frontend/src/components/layout/TopBar.tsx: the age of the snapshot and the countdown to the next
-- fetch. Times are natural numbers of milliseconds. `Date` parsing is a parameter, with `none` for NaN.
pub mod Laws
pub mod Menu
pub mod Header
use Prim.Native.String.{◌++◌}
use elastic_ops.Prelude.{
  ℕ, ◌+◌, ◌-◌, ◌*◌, ◌/◌, ◌%◌, ltb, String, Bool, true, false, Option, none, some, List, [], ◌∷◌,
  if◌then◌else◌,
}
use elastic_ops.Prelude.Text.{show}
use elastic_ops.Api.Es.{SnapshotMeta}
use elastic_ops.Format.{has_tz, seconds_since}

abbrev pub refresh_options : List (String × ℕ)
refresh_options = ("5s", 5000) ∷ ("15s", 15000) ∷ ("30s", 30000) ∷ ("1m", 60000) ∷ ("Off", 0) ∷ []

unfoldable pub format_ago : ℕ → String
format_ago seconds =
    let m = seconds / 60 in
    let s = seconds % 60 in
    if ltb seconds 1
    then "just now"
    else if ltb seconds 60
    then show seconds ++ "s ago"
    else if ltb m 60
    then (if ltb 0 s then show m ++ "m " ++ show s ++ "s ago" else show m ++ "m ago")
    else show (m / 60) ++ "h " ++ show (m % 60) ++ "m ago"

-- `parseUtc` of api/es.ts
unfoldable pub parse_utc : (String → Option ℕ) → String → Option ℕ
unfolding has_tz
parse_utc date_ms iso = date_ms (if has_tz iso then iso else iso ++ "Z")

unfoldable pub age_seconds : (String → Option ℕ) → ℕ → SnapshotMeta → ℕ
unfolding parse_utc seconds_since
age_seconds date_ms now meta = elim (parse_utc date_ms meta.fetched_at) [
  | none ↦ meta.stale_seconds
  | some ms ↦ seconds_since now ms
]

-- `Math.max(0, Math.ceil((refreshInterval - (now - updatedAt)) / 1000))`, `none` with auto-refresh
-- off. The query may have been updated after the last tick of `now`.
unfoldable pub next_in_seconds : ℕ → ℕ → ℕ → Option ℕ
next_in_seconds refresh_interval now updated_at =
    if ltb 0 refresh_interval
    then some ((refresh_interval + updated_at - now + 999) / 1000)
    else none

unfoldable pub is_stale : ℕ → Bool
is_stale age = ltb 90 age
