-- ===== src/Jobs/Laws.antt =====
-- The rows of the suggestions.

use elastic_ops.Prelude.{Option, List}
use elastic_ops.Prelude.Order.{IsConsistent, by_number-IsConsistent}
use elastic_ops.Prelude.Locale.{Locale, collate_by-IsConsistent}
use elastic_ops.Api.Jobs.{Job}
use elastic_ops.Table.{directed, directed-IsConsistent, IsTable, sort-IsTable}
use elastic_ops.Jobs.{
  SortKey, tier, status, type, index, current, target, savings, size, Page, filtered, compare_by,
  sorted_jobs,
}

module _ (locale : Locale) where
  compare_by-IsConsistent : (k : SortKey) → IsConsistent (λ a b. compare_by locale k a b)
  unfolding compare_by
  compare_by-IsConsistent tier = by_number-IsConsistent (λ j. j.tier)
  compare_by-IsConsistent status = collate_by-IsConsistent locale (λ j. j.status)
  compare_by-IsConsistent type = collate_by-IsConsistent locale (λ j. j.job_type)
  compare_by-IsConsistent index = collate_by-IsConsistent locale (λ j. j.index_name)
  compare_by-IsConsistent current = by_number-IsConsistent (λ j. j.current_shards)
  compare_by-IsConsistent target = by_number-IsConsistent (λ j. j.target_shards)
  compare_by-IsConsistent savings = by_number-IsConsistent (λ j. j.estimated_savings_shards)
  compare_by-IsConsistent size = by_number-IsConsistent (λ j. j.pri_store_bytes)

  -- The rows of the suggestions are the pending, approved and rejected jobs of the chosen tier, each
  -- as often as it came, in the order of the chosen column and direction, ties in the order in which
  -- the backend sent them.
  pub sorted_jobs-IsTable :
      (p : Page) (jobs : Option (List Job))
      → IsTable
          (directed p.sorting.dir (compare_by locale p.sorting.key))
          (filtered p jobs)
          (sorted_jobs locale p jobs)
  unfolding sorted_jobs
  sorted_jobs-IsTable p jobs =
      sort-IsTable (directed-IsConsistent p.sorting.dir (compare_by-IsConsistent p.sorting.key))
        (filtered p jobs)
