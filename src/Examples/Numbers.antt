-- ===== src/Examples/Numbers.antt =====
-- A reading of decimal texts, which shows that what is asked of `Number` can hold.
use Prim.Native.Char.{Char, code}
use Prim.Native.String.{◌++◌}
use text.Mathlib.TextLemmas.{nil-append, cons-append}
use elastic_ops.Prelude.{
  ℕ, zero, suc, ◌+◌, ◌-◌, ◌*◌, ◌/◌, ◌%◌, ◌<◌, ◌==◌, String, some, [], ◌≡◌, refl, ap, ◌∙◌, arith,
  Bool-cases, inl, inr,
}
use elastic_ops.Prelude.Text.{digit, print, show}
use elastic_ops.Clusters.{
  Number, natural, Context, load, set_active_cluster_id, set_refresh_interval,
}
use elastic_ops.Clusters.Laws.{reload_restores}

abbrev read : String → ℕ → ℕ
read String.[] acc = acc
read (String.◌∷◌ c s) acc = read s (acc * 10 + (code c - 48))

digit_char : (d : ℕ) → d < 10 → (c : Char) × (digit d ≡ String.◌∷◌ c String.[]) × (code c - 48 ≡ d)
digit_char zero h = ("0", refl, refl)
digit_char (suc zero) h = ("1", refl, refl)
digit_char (suc (suc zero)) h = ("2", refl, refl)
digit_char (suc (suc (suc zero))) h = ("3", refl, refl)
digit_char (suc (suc (suc (suc zero)))) h = ("4", refl, refl)
digit_char (suc (suc (suc (suc (suc zero))))) h = ("5", refl, refl)
digit_char (suc (suc (suc (suc (suc (suc zero)))))) h = ("6", refl, refl)
digit_char (suc (suc (suc (suc (suc (suc (suc zero))))))) h = ("7", refl, refl)
digit_char (suc (suc (suc (suc (suc (suc (suc (suc zero)))))))) h = ("8", refl, refl)
digit_char (suc (suc (suc (suc (suc (suc (suc (suc (suc zero))))))))) h = ("9", refl, refl)
digit_char (suc (suc (suc (suc (suc (suc (suc (suc (suc (suc d)))))))))) h = absurd (omega arith)

read-digit :
    (d acc : ℕ) (out : String) → d < 10 → read (digit d ++ out) acc ≡ read out (acc * 10 + d)
read-digit d acc out h =
    let (c, e, v) = digit_char d h in
    rw e (rw (cons-append c String.[] out, nil-append out) (ap (λ x. read out (acc * 10 + x)) v))

read-print : (f n : ℕ) (out : String) → n < f → read (print f n out) 0 ≡ read out n
unfolding print
read-print zero n out h = absurd (omega arith)
read-print (suc f) n out h = elim (Bool-cases (n / 10 == 0)) [
  | inl e ↦
      let q : 0 * 10 + n % 10 ≡ n = ground arith in
      rw e (read-digit (n % 10) 0 out (omega arith) ∙ ap (read out) q)
  | inr e ↦
      let q : n / 10 * 10 + n % 10 ≡ n = omega arith in
      rw e (
        read-print f (n / 10) (digit (n % 10) ++ out) (ground arith)
        ∙ read-digit (n % 10) (n / 10) out (omega arith)
        ∙ ap (read out) q)
]

abbrev number : String → Number
number t = natural (read t 0)

number-show : (n : ℕ) → number (show n) ≡ natural n
unfolding show
number-show n = ap natural (read-print (n + 1) n "" (omega arith))

abbrev context : Context
context = record { active_id = some (natural 1); refresh_interval = natural 15000; storage = [] }

reload_restores_example :
    ((load number (set_refresh_interval 5000 (set_active_cluster_id 2 context)).storage).active_id
      ≡ some (natural 2))
    × ((load number
          (set_refresh_interval 5000 (set_active_cluster_id 2 context)).storage).refresh_interval
        ≡ natural 5000)
    × ((set_active_cluster_id 2 context).refresh_interval ≡ natural 15000)
    × ((load number (set_active_cluster_id 2 context).storage).refresh_interval
        ≡ (load number context.storage).refresh_interval)
    × ((set_refresh_interval 5000 context).active_id ≡ some (natural 1))
    × ((load number (set_refresh_interval 5000 context).storage).active_id
        ≡ (load number context.storage).active_id)
reload_restores_example = reload_restores number context 2 5000 number-show
