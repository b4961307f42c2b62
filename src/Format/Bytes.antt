-- ===== src/Format/Bytes.antt =====
-- What `formatBytes` of frontend/src/lib/format.ts prints.
use Prim.Native.String.{◌++◌}
use native.Mathlib.Nat.{pow-suc}
use native.Mathlib.Numerals.{add-one}
use elastic_ops.Prelude.{
  ℕ, zero, suc, ◌+◌, ◌*◌, ◌/◌, ◌^◌, ◌≤◌, ◌<◌, ◌≡◌, String, some, arith, inl, inr, ltb,
  if◌then◌else◌, get_elem?, Bool-cases,
}
use elastic_ops.Prelude.Text.{show}
use elastic_ops.Format.{units, print_tenths}

pow_next : (k : ℕ) → (1024 ^ (k + 1) ≡ 1024 ^ k * 1024) × (1024 ^ suc k ≡ 1024 ^ k * 1024)
pow_next k = (rw (add-one, pow-suc), pow-suc 1024 k)

-- The exact logarithm, rounded down; the fuel is the number itself.
abbrev pub log_1024 : ℕ → ℕ → ℕ
log_1024 zero n = 0
log_1024 (suc f) n = let more = log_1024 f (n / 1024) in if ltb n 1024 then 0 else suc more

log_1024_bounds :
    (f n : ℕ) → 0 < n → n ≤ f → (1024 ^ log_1024 f n ≤ n) × (n < 1024 ^ (log_1024 f n + 1))
log_1024_bounds zero n p h = absurd (omega arith)
log_1024_bounds (suc f) n p h = elim (Bool-cases (ltb n 1024)) [
  | inl small ↦ rw small (ground arith)
  | inr large ↦
      let (low, high) = log_1024_bounds f (n / 1024) (ground arith) (ground arith) in
      let k = log_1024 f (n / 1024) in rw large (omega (arith, pow_next k, pow_next (suc k)))
]

-- What the pages rely on of the engine's logarithm: below 2^53 the exponent is that of the largest power of 1024
-- that is not above the number, or of the next one where the number is within one part in 2^45 below that.
pub record IsNearLog (log_floor : ℕ → ℕ) (n : ℕ) : Type 0 where
  pub low : 1024 ^ log_floor n ≤ n + n / 2 ^ 45
  pub high : n < 1024 ^ (log_floor n + 1)

abbrev pub Near : (ℕ → ℕ) → Type 0
Near log_floor = (n : ℕ) → 0 < n → n < 2 ^ 53 → IsNearLog log_floor n

pub exact-Near : Near (λ n. log_1024 n n)
exact-Near n p h =
    let (low, high) = log_1024_bounds n n p (omega arith) in
    record { low = omega (arith, low); high = high }

-- How many printed steps make one unit: a tenth is printed from MB on, a whole number below.
abbrev pub steps : ℕ → ℕ
steps i = if ltb 1 i then 10 else 1

-- `text` names the size in the largest unit that fits, or that a size larger by one part in 2^45 would fit, rounded
-- to the nearest printed step.
pub record IsSizeOf (bytes : ℕ) (text : String) : Type 0 where
  pub exponent : ℕ
  pub number : ℕ
  pub unit : String
  pub unit_known : get_elem? units exponent ≡ some unit
  pub fits : 1024 ^ exponent ≤ bytes + bytes / 2 ^ 45
  pub largest : bytes < 1024 ^ (exponent + 1)
  pub above : 2 * (steps exponent * bytes) < (2 * number + 1) * 1024 ^ exponent
  pub below : 2 * number * 1024 ^ exponent ≤ 2 * (steps exponent * bytes) + 1024 ^ exponent
  pub reads : text ≡ (if ltb 1 exponent then print_tenths number else show number) ++ " " ++ unit
