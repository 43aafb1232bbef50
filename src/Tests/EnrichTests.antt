-- ===== src/Tests/EnrichTests.antt =====
-- The enrichment of telemetry at concrete inputs.
use nrdot_host.Common.{
  ◌≡◌, refl, [], ◌∷◌, Bool, true, false, Option, none, some, List, Str-discrete, codes, ℕ_discrete,
}
use nrdot_host.Common.Dict.{Distinct, insert, or_else}
use nrdot_host.Common.Int.{pos}
use nrdot_host.Enrich.{
  string, int, Metadata, Config, Enricher, Call, Provider, system_provider, aws_provider,
  gcp_provider, azure_provider, kubernetes_provider, AttributeMap, str_value, Metric, gauge, empty,
  Resource, new_enricher, gather, collect_metadata, collect_anew, add_all, collect_providers,
  add_missing, enrich_attributes, enrich_metrics, enrich_traces, enrich_logs, cloud_of,
}
use nrdot_host.Common.Pointwise.{Pointwise}
use nrdot_host.Enrich.Attributes.{
  Enriched, MetricEnriched, ResourceEnriched, enrich_metrics-Enriched,
}
use nrdot_host.Enrich.Cache.{collect_all, AllFresh, collect_all-AllFresh, lookup-gather}
use mathlib.Core.List.{lookup}

abbrev config : Config
config = record {
  static_attributes =
      (codes "env", string (codes "prod")) ∷ (codes "team", string (codes "a")) ∷ [];
  environment = record { enabled = true; cloud_provider = true; kubernetes = false; system = true };
  ttl = 10;
}

abbrev found : Provider → Bool
found gcp_provider = true
found azure_provider = true
found _ = false

abbrev enricher : Enricher
enricher = new_enricher found config

abbrev answers : Provider → Option Metadata
answers system_provider =
    some ((codes "cpus", int (pos 4)) ∷ (codes "env", string (codes "host")) ∷ [])
answers gcp_provider = some ((codes "env", string (codes "gcp")) ∷ [])
answers _ = none

abbrev no_answers : Provider → Option Metadata
no_answers p = none

abbrev first_call : Call
first_call = record { now = 1; get_metadata = answers; stored = 2 }

-- Within the TTL of the first, and after it.
abbrev calls : List Call
calls =
    first_call
    ∷ record { now = 11; get_metadata = no_answers; stored = 11 }
    ∷ record { now = 12; get_metadata = no_answers; stored = 13 }
    ∷ []

-- The first cloud provider that is found, behind the system.
providers_found : enricher.providers ≡ system_provider ∷ gcp_provider ∷ []
unfolding new_enricher cloud_of
providers_found = refl

collect_all-AllFresh_example : AllFresh (gather enricher) 10 [] calls (collect_all enricher calls)
collect_all-AllFresh_example = collect_all-AllFresh found config calls

answers_distinct : (p : Provider) → Distinct Str-discrete (or_else (answers p) [])
unfolding lookup Str-discrete ℕ_discrete
answers_distinct system_provider = (refl, (refl, tt))
answers_distinct aws_provider = tt
answers_distinct gcp_provider = (refl, tt)
answers_distinct azure_provider = tt
answers_distinct kubernetes_provider = tt

lookup-gather_example :
    lookup Str-discrete (codes "env") (gather enricher first_call) ≡ some (string (codes "gcp"))
unfolding new_enricher cloud_of lookup Str-discrete ℕ_discrete
lookup-gather_example =
    lookup-gather enricher first_call (codes "env") (refl, (refl, tt)) answers_distinct

abbrev point : AttributeMap
point = (codes "env", str_value (codes "dev")) ∷ []

abbrev metrics : List (Resource Metric)
metrics = record { attributes = []; scopes = ((gauge (point ∷ [] ∷ []) ∷ empty ∷ []) ∷ []) } ∷ []

abbrev spans : List (Resource AttributeMap)
spans = record { attributes = point; scopes = ((point ∷ []) ∷ []) } ∷ []

-- What was there is kept.
kept :
    lookup Str-discrete
      (codes "env")
      (enrich_attributes point (collect_metadata enricher first_call).1)
    ≡ some (str_value (codes "dev"))
unfolding lookup new_enricher cloud_of collect_metadata gather add_all collect_providers
    enrich_attributes add_missing collect_anew insert Str-discrete ℕ_discrete
kept = refl

enrich_metrics-Enriched_example :
    Pointwise
      (ResourceEnriched
        (collect_metadata enricher first_call).1
        (MetricEnriched (collect_metadata enricher first_call).1))
      metrics
      (enrich_metrics enricher first_call metrics).1
    × Pointwise
        (ResourceEnriched
          (collect_metadata enricher first_call).1
          (Enriched (collect_metadata enricher first_call).1))
        spans
        (enrich_traces enricher first_call spans).1
    × Pointwise
        (ResourceEnriched
          (collect_metadata enricher first_call).1
          (Enriched (collect_metadata enricher first_call).1))
        spans
        (enrich_logs enricher first_call spans).1
enrich_metrics-Enriched_example = enrich_metrics-Enriched enricher first_call metrics spans
