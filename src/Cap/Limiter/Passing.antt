-- ===== src/Cap/Limiter/Passing.antt =====
-- nrcap/limiter.go, the `oldest` strategy: no data point is lost.
use nrdot_host.Common.{◌≡◌, List, Option, some}
use nrdot_host.Common.Pointwise.{Pointwise}
use nrdot_host.Cap.Metric.{Metric}
use nrdot_host.Cap.Config.{Config}
use nrdot_host.Cap.Env.{Env}
use nrdot_host.Cap.Limiter.{Limiter}

-- The result is given, with some limiter.
abbrev Gives : {A : Type 0} → Option (A × Limiter) → A → Type 0
Gives o a = (l : Limiter) × (o ≡ some (a, l))
