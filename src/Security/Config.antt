-- ===== src/Security/Config.antt =====
-- nrsecurity/config.go: the settings and their check.
use nrdot_host.Common.{
  ℕ, suc, List, [], ◌∷◌, Bool, true, false, Option, none, some, if◌then◌else◌, Str, codes,
}

pub record PatternConfig : Type 0 where
  pub name : Str
  pub regex : Str

pub record Config : Type 0 where
  pub enabled : Bool
  pub replacement_text : Str
  pub redact_emails : Bool
  pub redact_ips : Bool
  pub patterns : List PatternConfig
  pub keywords : List Str
  pub allow_list : List Str
  pub deny_list : List Str

pub data ConfigError : Type 0 where
  empty_replacement_text : ConfigError
  empty_name : ℕ → ConfigError
  empty_regex : Str → ConfigError

abbrev pub is_empty : Str → Bool
is_empty [] = true
is_empty (_ ∷ _) = false

-- The loop over the patterns, from the index `i`.
unfoldable pub check_patterns : ℕ → List PatternConfig → Option ConfigError
check_patterns i [] = none
check_patterns i (p ∷ rest) =
    let r = check_patterns (suc i) rest in
    if is_empty p.name
    then some (empty_name i)
    else (if is_empty p.regex then some (empty_regex p.name) else r)

unfoldable pub validate : Config → Option ConfigError
unfolding check_patterns
validate cfg =
    if cfg.enabled
    then (if is_empty cfg.replacement_text
        then some empty_replacement_text
        else check_patterns 0 cfg.patterns)
    else none

abbrev pub create_default_config : Config
create_default_config = record {
  enabled = true;
  replacement_text = codes "[REDACTED]";
  redact_emails = false;
  redact_ips = false;
  patterns = [];
  keywords =
      codes "password"
      ∷ codes "passwd"
      ∷ codes "secret"
      ∷ codes "token"
      ∷ codes "key"
      ∷ codes "credential"
      ∷ codes "auth"
      ∷ codes "authorization"
      ∷ codes "api_key"
      ∷ codes "apikey"
      ∷ codes "access_token"
      ∷ codes "private_key"
      ∷ codes "client_secret"
      ∷ [];
  allow_list =
      codes "service.name"
      ∷ codes "service.version"
      ∷ codes "service.instance.id"
      ∷ codes "span.kind"
      ∷ codes "span.name"
      ∷ codes "http.method"
      ∷ codes "http.status_code"
      ∷ codes "http.scheme"
      ∷ codes "net.peer.name"
      ∷ codes "net.peer.port"
      ∷ codes "process.pid"
      ∷ codes "process.command"
      ∷ codes "process.runtime.name"
      ∷ codes "process.runtime.version"
      ∷ [];
  deny_list =
      codes "http.request.header.authorization"
      ∷ codes "http.request.header.x-api-key"
      ∷ codes "http.request.header.x-auth-token"
      ∷ codes "db.connection_string"
      ∷ codes "messaging.url"
      ∷ [];
}
