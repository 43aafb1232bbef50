-- ===== src/Enrich.antt =====
-- processors/nrenrich: the processor that adds metadata to telemetry (config.go, enricher.go). What a
-- provider of metadata answers and the clock are parameters. A Go map is a list of its entries in the
-- order in which a range takes them.
pub mod Attributes
pub mod Cache
use nrdot_host.Common.{
  ℕ, ◌+◌, List, [], ◌∷◌, ◌++◌, map, Bool, ltb, ◌&&◌, Option, none, some, if◌then◌else◌, Str,
  Str-discrete,
}
use nrdot_host.Common.Dict.{insert, or_else}
use nrdot_host.Common.Int.{ℤ}
use mathlib.Core.List.{lookup}

-- A value of a Go map[string]interface{}: the types that setAttributeValue tells apart, and all
-- others, of which `%v` makes a text.
pub data Any : Type 0 where
  string : Str → Any
  int int64 : ℤ → Any
  float64 : ℕ → Any
  bool : Bool → Any
  strings : List Str → Any
  formatted : Str → Any

-- pcommon.Value: the values that are written here, a slice being one of texts, and all others. A
-- floating-point number is its bits.
pub data AttributeValue : Type 0 where
  str_value : Str → AttributeValue
  int_value : ℤ → AttributeValue
  double_value : ℕ → AttributeValue
  bool_value : Bool → AttributeValue
  slice_value : List Str → AttributeValue
  other_value : ℕ → AttributeValue

abbrev pub Metadata : Type 0
Metadata = List (Str × Any)

abbrev pub AttributeMap : Type 0
AttributeMap = List (Str × AttributeValue)

pub record EnvironmentConfig : Type 0 where
  pub enabled : Bool
  pub cloud_provider : Bool
  pub kubernetes : Bool
  pub system : Bool

-- The settings that the enricher reads.
pub record Config : Type 0 where
  pub static_attributes : Metadata
  pub environment : EnvironmentConfig
  pub ttl : ℕ

pub data Provider : Type 0 where
  system_provider aws_provider gcp_provider azure_provider kubernetes_provider : Provider

pub record CachedMetadata : Type 0 where
  pub data_of : Metadata
  pub timestamp : ℕ

-- The cache has one key only, "metadata".
pub record Enricher : Type 0 where
  pub config : Config
  pub providers : List Provider
  pub cache : Option CachedMetadata

-- The first cloud provider that is found.
unfoldable pub cloud_of : (Provider → Bool) → List Provider
cloud_of found =
    if found aws_provider
    then aws_provider ∷ []
    else if found gcp_provider
    then gcp_provider ∷ []
    else if found azure_provider
    then azure_provider ∷ []
    else []

-- `found` says which constructors give a provider; the one of the system always does. The order of the
-- rules is left out: nothing reads it.
unfoldable pub new_enricher : (Provider → Bool) → Config → Enricher
new_enricher found c = record {
  config = c;
  providers =
      if c.environment.enabled
      then (if c.environment.system then system_provider ∷ [] else [])
        ++ (if c.environment.cloud_provider then cloud_of found else [])
        ++ (if c.environment.kubernetes && found kubernetes_provider
            then kubernetes_provider ∷ []
            else [])
      else [];
  cache = none;
}

-- One call: the time at its start, what each provider answers (`none` is an error), and the time when
-- the metadata is stored.
pub record Call : Type 0 where
  pub now : ℕ
  pub get_metadata : Provider → Option Metadata
  pub stored : ℕ

-- `for k, v := range from { metadata[k] = v }`
unfoldable pub add_all : Metadata → Metadata → Metadata
add_all metadata [] = metadata
add_all metadata ((k, v) ∷ from) = add_all (insert Str-discrete k v metadata) from

unfoldable pub collect_providers :
    (Provider → Option Metadata) → List Provider → Metadata → Metadata
collect_providers get [] metadata = metadata
collect_providers get (p ∷ ps) metadata =
    collect_providers get ps (add_all metadata (or_else (get p) []))

unfoldable pub gather : Enricher → Call → Metadata
gather e call =
    collect_providers (call.get_metadata) (e.providers) (add_all [] (e.config.static_attributes))

unfoldable pub collect_anew : Enricher → Call → Enricher × Metadata
collect_anew e call =
    let metadata = gather e call in
    (
      record {
        config = e.config;
        providers = e.providers;
        cache = some (record { data_of = metadata; timestamp = call.stored });
      },
      metadata,
    )

-- The cached metadata while it is younger than the TTL, and metadata collected anew after that.
abbrev pub collect_cached : Enricher → Call → Option CachedMetadata → Enricher × Metadata
collect_cached e call none = collect_anew e call
collect_cached e call (some cached) =
    if ltb call.now (cached.timestamp + e.config.ttl)
    then (e, cached.data_of)
    else collect_anew e call

unfoldable pub collect_metadata : Enricher → Call → Enricher × Metadata
collect_metadata e call = collect_cached e call e.cache

unfoldable pub set_attribute_value : Any → AttributeValue
set_attribute_value (string s) = str_value s
set_attribute_value (int n) = int_value n
set_attribute_value (int64 n) = int_value n
set_attribute_value (float64 x) = double_value x
set_attribute_value (bool b) = bool_value b
set_attribute_value (strings ss) = slice_value ss
set_attribute_value (formatted s) = str_value s

-- A key that is there keeps its value.
abbrev pub put_missing : Str → Any → AttributeMap → Option AttributeValue → AttributeMap
put_missing k v attrs none = insert Str-discrete k (set_attribute_value v) attrs
put_missing k v attrs (some w) = attrs

unfoldable pub add_missing : Str → Any → AttributeMap → AttributeMap
add_missing k v attrs = put_missing k v attrs (lookup Str-discrete k attrs)

unfoldable pub enrich_attributes : AttributeMap → Metadata → AttributeMap
enrich_attributes attrs [] = attrs
enrich_attributes attrs ((k, v) ∷ metadata) = enrich_attributes (add_missing k v attrs) metadata

-- Rules and dynamic attributes are read from the configuration, and then nothing is done with them.
unfoldable pub apply_rules : AttributeMap → AttributeMap → AttributeMap
apply_rules attrs resource_attrs = attrs

unfoldable pub apply_dynamic_attributes : AttributeMap → AttributeMap
apply_dynamic_attributes attrs = attrs

-- What is done to the attributes of one span, log record or data point.
unfoldable pub enrich_record : Metadata → AttributeMap → AttributeMap → AttributeMap
enrich_record metadata resource_attrs attrs =
    apply_dynamic_attributes (apply_rules (enrich_attributes attrs metadata) resource_attrs)

-- The attributes of the data points, by the type of the metric.
pub data Metric : Type 0 where
  gauge sum histogram exponential_histogram summary : List AttributeMap → Metric
  empty : Metric

unfoldable pub enrich_metric_data_points : Metadata → AttributeMap → Metric → Metric
enrich_metric_data_points md res (gauge ps) = gauge (map (enrich_record md res) ps)
enrich_metric_data_points md res (sum ps) = sum (map (enrich_record md res) ps)
enrich_metric_data_points md res (histogram ps) = histogram (map (enrich_record md res) ps)
enrich_metric_data_points md res (exponential_histogram ps) =
    exponential_histogram (map (enrich_record md res) ps)
enrich_metric_data_points md res (summary ps) = summary (map (enrich_record md res) ps)
enrich_metric_data_points md res empty = empty

-- A resource with its scopes, which hold spans, log records or metrics.
pub record Resource (A : Type 0) : Type 0 where
  pub attributes : AttributeMap
  pub scopes : List (List A)

-- The loops over scopes and items; the items see the attributes of the resource after its own turn.
unfoldable pub enrich_resource :
    {A : Type 0} → Metadata → (AttributeMap → A → A) → Resource A → Resource A
enrich_resource md item r =
    let attrs = enrich_attributes (r.attributes) md in
    record { attributes = attrs; scopes = map (map (item attrs)) (r.scopes) }

unfoldable pub enrich_traces :
    Enricher → Call → List (Resource AttributeMap) → Enricher × List (Resource AttributeMap)
enrich_traces e call td =
    let r = collect_metadata e call in (r.0, map (enrich_resource r.1 (enrich_record r.1)) td)

unfoldable pub enrich_logs :
    Enricher → Call → List (Resource AttributeMap) → Enricher × List (Resource AttributeMap)
enrich_logs e call ld =
    let r = collect_metadata e call in (r.0, map (enrich_resource r.1 (enrich_record r.1)) ld)

unfoldable pub enrich_metrics :
    Enricher → Call → List (Resource Metric) → Enricher × List (Resource Metric)
enrich_metrics e call md =
    let r = collect_metadata e call in
    (r.0, map (enrich_resource r.1 (enrich_metric_data_points r.1)) md)
