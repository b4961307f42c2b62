-- ===== src/Format.antt =====
-- frontend/src/lib/format.ts: numbers and times as the pages print them. A byte count or a count
-- is a natural number, a percentage a natural number of hundredths (the backend sends at most two
-- decimals); numbers are below 2^53, where doubles are exact. `log_floor n` is `Math.floor(Math.log(n) /
-- Math.log(1024))`, whose rounding the engine decides: a parameter. `Date` parsing is a parameter, with `none` for NaN; so is the way a decimal tie falls
-- in `toFixed(1)` of a quotient that is not a binary fraction, which the rounding of doubles decides.
pub mod Bytes
pub mod Ages
use Prim.Native.String.{◌++◌}
use elastic_ops.Prelude.{
  ℕ, zero, suc, ◌+◌, ◌-◌, ◌*◌, ◌/◌, ◌%◌, ◌^◌, String, Bool, true, false, not, ◌&&◌, ◌||◌, Option,
  none, some, List, [], ◌∷◌, ltb, leb, ◌==◌, if◌then◌else◌, get_or, get_elem?,
}
use elastic_ops.Prelude.Text.{truthy, codes, show, in_range}
use text.Mathlib.Text.{◌==◌ as str_eq}

abbrev pub units : List String
units = "B" ∷ "KB" ∷ "MB" ∷ "GB" ∷ "TB" ∷ "PB" ∷ []

-- `(n / d).toFixed(0)` and the tenths of `(n / d).toFixed(1)`, where the quotient is exact: a tie
-- goes up.
unfoldable pub round_quotient : ℕ → ℕ → ℕ
round_quotient n d = (2 * n + d) / (2 * d)

abbrev pub print_tenths : ℕ → String
print_tenths t = show (t / 10) ++ "." ++ show (t % 10)

-- A template literal prints `undefined` for a missing unit.
unfoldable pub format_bytes : (ℕ → ℕ) → ℕ → String
unfolding round_quotient
format_bytes log_floor bytes =
    if bytes == 0
    then "0 B"
    else (let i = log_floor bytes in
        (if ltb 1 i
          then print_tenths (round_quotient (10 * bytes) (1024 ^ i))
          else show (round_quotient bytes (1024 ^ i)))
        ++ " "
        ++ get_or (get_elem? units i) "undefined")

module _ (tie_up : ℕ → ℕ → Bool) where
  -- The tenths of `(n / d).toFixed(1)`.
  unfoldable pub tenths : ℕ → ℕ → ℕ
  tenths n d =
      let q = 10 * n / d in
      let twice = 2 * (10 * n % d) in
      if ltb twice d then q else if ltb d twice || tie_up n d then q + 1 else q

  unfoldable pub format_number : ℕ → String
  unfolding tenths
  format_number n =
      if leb 1000000 n
      then print_tenths (tenths n 1000000) ++ "M"
      else if leb 1000 n
      then print_tenths (tenths n 1000) ++ "K"
      else show n

  unfoldable pub format_percent : ℕ → String
  unfolding tenths
  format_percent hundredths = print_tenths (tenths hundredths 100) ++ "%"

unfoldable pub health_color : String → String
health_color status =
    if str_eq status "green"
    then "bg-eo-sage"
    else if str_eq status "yellow"
    then "bg-eo-terracotta"
    else if str_eq status "red"
    then "bg-eo-brick"
    else "bg-eo-muted"

unfoldable pub disk_color : ℕ → String
disk_color percent =
    if leb 8500 percent
    then "bg-eo-brick"
    else if leb 7000 percent
    then "bg-eo-terracotta"
    else "bg-eo-sage"

unfoldable pub disk_text_color : ℕ → String
disk_text_color percent =
    if leb 8500 percent
    then "text-eo-brick"
    else if leb 7000 percent
    then "text-eo-terracotta"
    else "text-eo-sage"

abbrev is_digit : ℕ → Bool
is_digit = in_range b'0' b'9'

abbrev is_sign : ℕ → Bool
is_sign c = c == b'+' || c == b'-'

-- The regular expression `/[zZ]$|[+-]\d{2}:?\d{2}$/`.
zone_at : List ℕ → Bool
zone_at (z ∷ []) = z == b'z' || z == b'Z'
zone_at (s ∷ a ∷ b ∷ c ∷ d ∷ []) = is_sign s && is_digit a && is_digit b && is_digit c && is_digit d
zone_at (s ∷ a ∷ b ∷ e ∷ c ∷ d ∷ []) =
    is_sign s && is_digit a && is_digit b && e == b':' && is_digit c && is_digit d
zone_at _ = false

zone_in : List ℕ → Bool
unfolding zone_at
zone_in [] = false
zone_in (c ∷ cs) = zone_at (c ∷ cs) || zone_in cs

unfoldable pub has_tz : String → Bool
unfolding zone_in
has_tz iso = zone_in (codes iso)

-- The seconds of `Math.max(0, Math.round((Date.now() - ms) / 1000))`.
unfoldable pub seconds_since : ℕ → ℕ → ℕ
seconds_since now ms = (now - ms + 500) / 1000

unfoldable pub since_label : ℕ → String
since_label seconds =
    let minutes = seconds / 60 in
    let hours = minutes / 60 in
    let days = hours / 24 in
    if ltb seconds 60
    then show seconds ++ "s ago"
    else if ltb minutes 60
    then show minutes ++ "m ago"
    else if ltb hours 24
    then show hours ++ "h ago"
    else show days ++ "d ago"

module _ (date_ms : String → Option ℕ) (now : ℕ) where
  unfoldable pub format_since : Option String → String
  unfolding since_label seconds_since has_tz
  format_since none = "-"
  format_since (some iso) =
      if truthy iso
      then elim (date_ms (if has_tz iso then iso else iso ++ "Z")) [
        | none ↦ "-"
        | some ms ↦ since_label (seconds_since now ms)
      ]
      else "-"
