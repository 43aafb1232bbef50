-- ===== src/Security/Patterns.antt =====
-- nrsecurity/patterns.go: the patterns whose matches are sensitive. The methods hold the lock for their
-- whole length. The package regexp and strings.ToLower are parameters.
use nrdot_host.Common.{
  List, [], ◌∷◌, ◌++◌, Bool, true, false, Option, none, some, if◌then◌else◌, Str, codes,
}

-- A compiled expression has the type `R`, and `none` is an error of the compilation. `to_lower` is
-- `strings.ToLower`.
pub record Regexp (R : Type 0) : Type 0 where
  pub compile : Str → Option R
  pub match_string : R → Str → Bool
  pub replace_all_string : R → Str → Str → Str
  pub to_lower : Str → Str

pub record RedactionPattern (R : Type 0) : Type 0 where
  pub name : Str
  pub pattern : R

pub record PatternManager (R : Type 0) : Type 0 where
  pub patterns : List (RedactionPattern R)

-- The names and expressions of `loadDefaultPatterns`.
abbrev pub default_patterns : List (Str × Str)
default_patterns =
    (
      codes "generic_api_key",
      codes "(?i)(api[_-]?key|apikey)\\s*[:=]\\s*['\"]?[a-zA-Z0-9_\\-]{8,}['\"]?",
    )
    ∷ (codes "aws_access_key", codes "AKIA[0-9A-Z]{16}")
    ∷ (
      codes "aws_secret_key",
      codes "(?i)aws[_-]?secret[_-]?access[_-]?key[\"\\s]*[:=][\"\\s]*([a-zA-Z0-9/+=]{40})",
    )
    ∷ (codes "password_in_url", codes "(?i)(https?|ftp)://[^:]+:([^@]+)@")
    ∷ (
      codes "password_assignment",
      codes "(?i)(password|passwd|pwd)[\"\\s]*[:=][\"\\s]*([^\"\\s,;]+)",
    )
    ∷ (codes "jwt_token", codes "eyJ[a-zA-Z0-9_-]*\\.eyJ[a-zA-Z0-9_-]*\\.[a-zA-Z0-9_-]*")
    ∷ (codes "bearer_token", codes "(?i)bearer\\s+([a-zA-Z0-9_\\-\\.]+)")
    ∷ (codes "github_token", codes "gh[ps]?_[a-zA-Z0-9]{36,}")
    ∷ (codes "slack_token", codes "xox[baprs]-[a-zA-Z0-9\\-]{10,}")
    ∷ (codes "visa", codes "4[0-9]{12}(?:[0-9]{3})?")
    ∷ (codes "mastercard", codes "5[1-5][0-9]{14}")
    ∷ (codes "amex", codes "3[47][0-9]{13}")
    ∷ (codes "discover", codes "6(?:011|5[0-9]{2})[0-9]{12}")
    ∷ (codes "ssn", codes "\\b\\d{3}-\\d{2}-\\d{4}\\b")
    ∷ (codes "postgres_conn", codes "postgres://[^:]+:[^@]+@[^\\s]+")
    ∷ (codes "mysql_conn", codes "mysql://[^:]+:[^@]+@[^\\s]+")
    ∷ (codes "mongodb_conn", codes "mongodb(\\+srv)?://[^:]+:[^@]+@[^\\s]+")
    ∷ (
      codes "private_key_block",
      codes
          "-----BEGIN (RSA |EC |DSA |OPENSSH )?PRIVATE KEY-----[\\s\\S]+?-----END (RSA |EC |DSA |OPENSSH )?PRIVATE KEY-----",
    )
    ∷ (
      codes "generic_secret",
      codes "(?i)(secret|client[_-]?secret)\\s*[:=]\\s*['\"]?[a-zA-Z0-9_\\-]{6,}['\"]?",
    )
    ∷ []

abbrev email_pattern : Str
email_pattern = codes "[a-zA-Z0-9._%+-]+@[a-zA-Z0-9.-]+\\.[a-zA-Z]{2,}"

abbrev ipv4_pattern : Str
ipv4_pattern =
    codes
      "\\b(?:(?:25[0-5]|2[0-4][0-9]|[01]?[0-9][0-9]?)\\.){3}(?:25[0-5]|2[0-4][0-9]|[01]?[0-9][0-9]?)\\b"

abbrev ipv6_pattern : Str
ipv6_pattern = codes "(?:[0-9a-fA-F]{1,4}:){7}[0-9a-fA-F]{1,4}"

module _ {R : Type 0} (re : Regexp R) where
  -- A pattern is appended if it compiles.
  abbrev pub append_compiled : Str → Option R → PatternManager R → PatternManager R
  append_compiled name none pm = pm
  append_compiled name (some compiled) pm = record pm {
    patterns = pm.patterns ++ (record { name = name; pattern = compiled } ∷ []);
  }

  unfoldable pub load_patterns : List (Str × Str) → PatternManager R → PatternManager R
  load_patterns [] pm = pm
  load_patterns ((name, pattern) ∷ rest) pm =
      load_patterns rest (append_compiled name (re.compile pattern) pm)

  unfoldable pub load_default_patterns : PatternManager R → PatternManager R
  unfolding load_patterns
  load_default_patterns pm = load_patterns default_patterns pm

  unfoldable pub new_pattern_manager : PatternManager R
  unfolding load_default_patterns
  new_pattern_manager = load_default_patterns (record { patterns = [] })

  -- `none` is the error of the compilation.
  abbrev append_or_fail : Str → Option R → PatternManager R → Option (PatternManager R)
  append_or_fail name none pm = none
  append_or_fail name (some compiled) pm = some (append_compiled name (some compiled) pm)

  unfoldable pub add_pattern : Str → Str → PatternManager R → Option (PatternManager R)
  add_pattern name pattern pm = append_or_fail name (re.compile pattern) pm

  unfoldable pub add_email_pattern : PatternManager R → PatternManager R
  add_email_pattern pm = append_compiled (codes "email") (re.compile email_pattern) pm

  unfoldable pub add_ip_pattern : PatternManager R → PatternManager R
  add_ip_pattern pm =
      append_compiled (codes "ipv6") (re.compile ipv6_pattern)
        (append_compiled (codes "ipv4") (re.compile ipv4_pattern) pm)

  abbrev pub get_patterns : PatternManager R → List (RedactionPattern R)
  get_patterns pm = pm.patterns

  unfoldable pub matches_any_of : List (RedactionPattern R) → Str → Bool
  matches_any_of [] input = false
  matches_any_of (p ∷ rest) input =
      let r = matches_any_of rest input in if re.match_string p.pattern input then true else r

  unfoldable pub matches_any : PatternManager R → Str → Bool
  unfolding matches_any_of
  matches_any pm input = matches_any_of pm.patterns input

  unfoldable pub redact_with : List (RedactionPattern R) → Str → Str → Str
  redact_with [] result replacement = result
  redact_with (p ∷ rest) result replacement =
      redact_with rest (re.replace_all_string p.pattern result replacement) replacement

  unfoldable pub redact_all : PatternManager R → Str → Str → Str
  unfolding redact_with
  redact_all pm input replacement = redact_with pm.patterns input replacement
