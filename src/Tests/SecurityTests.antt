-- ===== src/Tests/SecurityTests.antt =====
-- The redaction at concrete inputs.
use nrdot_host.Common.{
  ◌≡◌, ◌↔◌, refl, [], ◌∷◌, true, false, Option, none, some, All, Str, codes, str_eq, Str-discrete,
  ℕ_discrete, map, leb, ◌&&◌, ◌+◌, if◌then◌else◌,
}
use nrdot_host.Cap.Metric.{gauge}
use nrdot_host.Security.Value.{Attributes, str, bytes, other, kvlist, slice, nil, cons, end, entry}
use nrdot_host.Security.Config.{Config}
use nrdot_host.Security.Patterns.{Regexp, matches_any}
use nrdot_host.Security.Redactor.{
  Redactor, contains, contains_keyword, redact_attributes, new_redactor,
}
use nrdot_host.Security.Processor.{
  Traces, Metrics, Logs, process_traces, process_metrics, process_logs,
}
use nrdot_host.Security.Clean.{CleanAll, redact_attributes-CleanAll}
use nrdot_host.Security.Unchanged.{redact_attributes_unchanged}
use nrdot_host.Security.Telemetry.{
  CleanGroup, CleanSpan, CleanMetric, CleanLog, process_telemetry_safe, AnyFails,
  new_redactor_fails,
}

abbrev compile_text : Str → Option Str
compile_text [] = none
compile_text (c ∷ s) = some (c ∷ s)

-- Expressions that are searched for as they are, and replace the whole text.
abbrev regexp : Regexp Str
regexp = record {
  compile = compile_text;
  match_string = λ pattern s. contains s pattern;
  replace_all_string = λ pattern s replacement. replacement;
  to_lower = map (λ c. if leb b'A' c && leb c b'Z' then c + 32 else c);
}

abbrev config : Config
config = record {
  enabled = true;
  replacement_text = codes "***";
  redact_emails = true;
  redact_ips = false;
  patterns = record { name = codes "id"; regex = codes "id-" } ∷ [];
  keywords = codes "key" ∷ [];
  allow_list = codes "host" ∷ [];
  deny_list = codes "url" ∷ [];
}

abbrev redactor : Redactor Str
redactor = record {
  config = config;
  pattern_manager = record { patterns = record { name = codes "id"; pattern = codes "id-" } ∷ [] };
  keyword_set = codes "key" ∷ [];
  allow_set = codes "host" ∷ [];
  deny_set = codes "url" ∷ [];
}

abbrev labels : Attributes
labels = entry (codes "host") (str (codes "id-1")) (
    entry (codes "API_KEY") (slice (cons (str (codes "a")) (cons (other 1) nil))) (
      entry (codes "url") (kvlist (entry (codes "x") (bytes (codes "b")) end))
        (entry (codes "user") (str (codes "an id-7")) end)))

abbrev labels_redacted : Attributes
labels_redacted = entry (codes "host") (str (codes "id-1")) (
    entry (codes "API_KEY") (slice (cons (str (codes "***")) (cons (other 1) nil))) (
      entry (codes "url") (kvlist (entry (codes "x") (bytes (codes "***")) end))
        (entry (codes "user") (str (codes "***")) end)))

redacts : redact_attributes regexp redactor labels ≡ labels_redacted
unfolding redact_attributes str_eq Str-discrete ℕ_discrete contains_keyword contains matches_any
redacts = refl

redact_attributes-CleanAll_example :
    CleanAll regexp redactor (redact_attributes regexp redactor labels)
redact_attributes-CleanAll_example = redact_attributes-CleanAll regexp redactor labels

redact_attributes_unchanged_example :
    (redact_attributes regexp redactor labels_redacted ≡ labels_redacted)
    ↔ CleanAll regexp redactor labels_redacted
redact_attributes_unchanged_example = redact_attributes_unchanged regexp redactor labels_redacted

abbrev traces : Traces
traces =
    record {
      attributes = labels;
      members =
          record {
            attributes = end;
            members =
                record { content = 1; attributes = labels; events = labels ∷ []; links = [] } ∷ [];
          }
          ∷ [];
    }
    ∷ []

abbrev metrics : Metrics
metrics =
    record {
      attributes = end;
      members =
          record {
            attributes = labels;
            members =
                record {
                  type = gauge;
                  points = record { content = 2; attributes = labels; exemplars = [] } ∷ [];
                }
                ∷ [];
          }
          ∷ [];
    }
    ∷ []

abbrev logs : Logs
logs =
    record {
      attributes = end;
      members =
          record {
            attributes = end;
            members = record { content = 3; attributes = labels; body = str (codes "id-9") } ∷ [];
          }
          ∷ [];
    }
    ∷ []

process_telemetry_safe_example :
    All
      (CleanGroup regexp redactor (CleanGroup regexp redactor (CleanSpan regexp redactor)))
      (process_traces regexp redactor traces)
    × All
        (CleanGroup regexp redactor (CleanGroup regexp redactor (CleanMetric regexp redactor)))
        (process_metrics regexp redactor metrics)
    × All
        (CleanGroup regexp redactor (CleanGroup regexp redactor (CleanLog regexp redactor)))
        (process_logs regexp redactor logs)
process_telemetry_safe_example = process_telemetry_safe regexp redactor traces metrics logs refl

abbrev bad_config : Config
bad_config = record config { patterns = record { name = codes "id"; regex = [] } ∷ [] }

new_redactor_fails_example :
    (new_redactor regexp bad_config ≡ none) ↔ AnyFails regexp bad_config.patterns
new_redactor_fails_example = new_redactor_fails regexp bad_config
