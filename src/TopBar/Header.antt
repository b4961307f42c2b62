-- ===== src/TopBar/Header.antt =====
-- `StalenessIndicator` and `TopBar` of frontend/src/components/layout/TopBar.tsx: what the bar says of the
-- active cluster and its snapshot, the forced refresh, the choice of the interval and the jump to the
-- unassigned shards. `tie_up` decides the decimal ties of `toFixed(1)`.
pub mod Laws
use Prim.Native.String.{◌++◌}
use text.Mathlib.Text.{◌==◌ as str_eq}
use elastic_ops.Prelude.{
  ℕ, ◌+◌, ltb, String, Bool, true, false, not, ◌&&◌, Option, none, some, List, [], ◌∷◌,
  if◌then◌else◌, get_or, is_some, any, ◌==◌,
}
use elastic_ops.Prelude.Text.{show}
use elastic_ops.Format.{format_number, health_color}
use elastic_ops.Api.Json.{Json}
use elastic_ops.Api.Client.{Result}
use elastic_ops.Api.Clusters.{Cluster}
use elastic_ops.Api.Es.{ClusterHealth, SnapshotMeta}
use elastic_ops.Api.Mutation.{Mutation, idle, pending, is_pending, settled}
use elastic_ops.Clusters.{Context, Number, natural, other, set_refresh_interval}
use elastic_ops.TopBar.{refresh_options, format_ago, age_seconds, next_in_seconds, is_stale}

-- The object literal of `statusColor`, with `?? "bg-eo-muted"`.
unfoldable pub status_color : Option ClusterHealth → String
status_color none = "bg-eo-muted"
status_color (some h) =
    if str_eq h.status "green"
    then "bg-eo-sage"
    else if str_eq h.status "yellow"
    then "bg-eo-terracotta"
    else if str_eq h.status "red"
    then "bg-eo-brick"
    else "bg-eo-muted"

pub record Summary : Type 0 where
  pub color : String
  pub name : String
  pub read_only_badge : Bool
  pub nodes : String
  pub shards : String
  pub relocating : Option String
  pub unassigned : Option String

pub data Left : Type 0 where
  connecting no_cluster : Left
  summary : Summary → Left

abbrev counted : ℕ → String → Option String
counted n what = if ltb 0 n then some (show n ++ what) else none

module _ (tie_up : ℕ → ℕ → Bool) where
  summary_of : Cluster → ClusterHealth → Summary
  unfolding status_color format_number
  summary_of c h = record {
    color = status_color (some h);
    name = h.cluster_name;
    read_only_badge = get_or c.read_only false;
    nodes = show h.number_of_nodes ++ " nodes";
    shards = format_number tie_up h.active_shards ++ " shards";
    relocating = counted h.relocating_shards " relocating";
    unassigned = counted h.unassigned_shards " unassigned";
  }

  unfoldable pub left : Option Cluster → Option ClusterHealth → Left
  unfolding summary_of
  left none health = no_cluster
  left (some c) none = connecting
  left (some c) (some h) = summary (summary_of c h)

-- `StalenessIndicator`
pub record Staleness : Type 0 where
  pub title : String
  pub dot : String
  pub text_color : String
  pub updated : String
  pub next : String
  pub spins : Bool

-- `refreshInterval > 0`; what is no number is not.
abbrev pub interval_ms : Number → ℕ
interval_ms (natural n) = n
interval_ms (other t) = 0

next_text : Option ℕ → String
next_text none = "· auto off"
next_text (some n) = "· next in " ++ show n ++ "s"

unfoldable pub staleness :
    (String → Option ℕ)
    → Option SnapshotMeta
    → Number
    → (now updated_at : ℕ) → Bool
    → Option Staleness
unfolding format_ago age_seconds next_in_seconds is_stale next_text
staleness date_ms none interval now updated_at refreshing = none
staleness date_ms (some meta) interval now updated_at refreshing =
    let age = age_seconds date_ms now meta in
    let ago = format_ago age in
    some (record {
      title = "Snapshot fetched " ++ ago;
      dot = if is_stale age then "bg-eo-terracotta" else "bg-eo-sage";
      text_color = if is_stale age then "text-eo-terracotta" else "text-eo-stone";
      updated = "updated " ++ ago;
      next = next_text (next_in_seconds (interval_ms interval) now updated_at);
      spins = refreshing;
    })

-- `useNowTick`, the refresh and the choice of the interval. `path` is the last place that the badge led to.
pub record State : Type 0 where
  pub now : ℕ
  pub context : Context
  pub cluster : Option Cluster
  pub health : Option ClusterHealth
  pub meta : Option SnapshotMeta
  pub refresh : Mutation
  pub sent : ℕ
  pub path : Option String

abbrev pub unassigned_panel_id : String
unassigned_panel_id = "unassigned-panel"

-- Whether the badge of the unassigned shards stands in the bar.
abbrev pub shows_badge : Option Cluster → Option ClusterHealth → Bool
shows_badge (some c) (some h) = ltb 0 h.unassigned_shards
shows_badge _ _ = false

pub data Event : Type 0 where
  ticks picks : ℕ → Event
  forces jumps : Event
  refresh_done : Result Json → Event
  meta_arrives : SnapshotMeta → Event

unfoldable pub step : Event → State → State
step (ticks t) s = record s { now = t }
step (picks n) s =
    if any (λ o. o.1 == n) refresh_options
    then record s { context = set_refresh_interval n s.context }
    else s
step forces s =
    if is_some s.cluster && is_some s.meta && not (is_pending s.refresh)
    then record s { refresh = pending; sent = s.sent + 1 }
    else s
step jumps s =
    if shows_badge s.cluster s.health
    then record s { path = some ("/overview#" ++ unassigned_panel_id) }
    else s
step (refresh_done r) s = if is_pending s.refresh then record s { refresh = settled r } else s
step (meta_arrives m) s = record s { meta = some m }

unfoldable pub run : List Event → State → State
unfolding step
run [] s = s
run (e ∷ es) s = run es (step e s)
