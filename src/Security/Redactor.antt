-- ===== src/Security/Redactor.antt =====
-- nrsecurity/redactor.go: which values are replaced.
use nrdot_host.Common.{
  List, [], ◌∷◌, map, Bool, true, false, Option, some, ◌>>=◌, if◌then◌else◌, Str, str_eq, ◌==◌,
}
use nrdot_host.Security.Config.{Config, PatternConfig}
use nrdot_host.Security.Value.{
  Value, Values, Attributes, str, bytes, other, kvlist, slice, nil, cons, end, entry,
}
use nrdot_host.Security.Patterns.{
  Regexp, PatternManager, new_pattern_manager, add_pattern, add_email_pattern, add_ip_pattern,
  matches_any, redact_all,
}

-- A set of texts is a list.
abbrev pub in_set : List Str → Str → Bool
in_set [] key = false
in_set (k ∷ ks) key = if str_eq key k then true else in_set ks key

-- `strings.HasPrefix` and `strings.Contains`.
unfoldable pub has_prefix : Str → Str → Bool
has_prefix s [] = true
has_prefix [] (p ∷ ps) = false
has_prefix (c ∷ s) (p ∷ ps) = let r = has_prefix s ps in if c == p then r else false

unfoldable pub contains : Str → Str → Bool
unfolding has_prefix
contains [] sub = has_prefix [] sub
contains (c ∷ s) sub = let r = contains s sub in if has_prefix (c ∷ s) sub then true else r

-- What is to be done with the value of a key.
pub data Verdict : Type 0 where
  allowed redacted inspected : Verdict

abbrev pub by_verdict {ℓ} : {A : Type ℓ} → Verdict → A → A → A → A
by_verdict allowed a b c = a
by_verdict redacted a b c = b
by_verdict inspected a b c = c

pub record Redactor (R : Type 0) : Type 0 where
  pub config : Config
  pub pattern_manager : PatternManager R
  pub keyword_set : List Str
  pub allow_set : List Str
  pub deny_set : List Str

unfoldable pub contains_keyword : List Str → Str → Bool
contains_keyword [] lower_key = false
contains_keyword (keyword ∷ rest) lower_key =
    let r = contains_keyword rest lower_key in if contains lower_key keyword then true else r

module _ {R : Type 0} (re : Regexp R) where
  unfoldable pub add_patterns : List PatternConfig → PatternManager R → Option (PatternManager R)
  add_patterns [] pm = some pm
  add_patterns (p ∷ rest) pm = add_pattern re p.name p.regex pm >>= add_patterns rest

  unfoldable pub new_redactor : Config → Option (Redactor R)
  unfolding add_patterns
  new_redactor cfg = add_patterns cfg.patterns (new_pattern_manager re) >>= λ pm.
      let with_emails = if cfg.redact_emails then add_email_pattern re pm else pm in
      let with_ips = if cfg.redact_ips then add_ip_pattern re with_emails else with_emails in
      some (record {
        config = cfg;
        pattern_manager = with_ips;
        keyword_set = map re.to_lower cfg.keywords;
        allow_set = cfg.allow_list;
        deny_set = cfg.deny_list;
      })

  module _ (r : Redactor R) where
    -- The three tests of `redactValue`, in their order.
    unfoldable pub verdict : Str → Verdict
    verdict key =
        if in_set r.allow_set key
        then allowed
        else (if in_set r.deny_set key
            then redacted
            else (if contains_keyword r.keyword_set (re.to_lower key) then redacted else inspected))

    abbrev is_match : Str → Bool
    is_match [] = false
    is_match (c ∷ s) = matches_any re r.pattern_manager (c ∷ s)

    unfoldable pub should_redact_string : Str → Bool
    should_redact_string value = is_match value

    abbrev redact_text : Str → Str
    redact_text [] = []
    redact_text (c ∷ s) = redact_all re r.pattern_manager (c ∷ s) r.config.replacement_text

    unfoldable pub redact_string : Str → Str
    redact_string value = redact_text value

    unfoldable mutual
      pub redact_value_content : Value → Value
      redact_value_content (str s) = str r.config.replacement_text
      redact_value_content (bytes b) = bytes r.config.replacement_text
      redact_value_content (other n) = other n
      redact_value_content (kvlist m) = kvlist (redact_contents m)
      redact_value_content (slice vs) = slice (redact_elements vs)

      pub redact_contents : Attributes → Attributes
      redact_contents end = end
      redact_contents (entry k v m) = entry k (redact_value_content v) (redact_contents m)

      pub redact_elements : Values → Values
      redact_elements nil = nil
      redact_elements (cons v vs) = cons (redact_value_content v) (redact_elements vs)

    -- An element of a slice is taken under the key of the slice.
    unfoldable mutual
      unfolding verdict redact_value_content should_redact_string

      pub redact_value : Str → Value → Value
      redact_value key (str s) =
          by_verdict (verdict key) (str s) (redact_value_content (str s))
            (if should_redact_string s then str r.config.replacement_text else str s)
      redact_value key (bytes b) =
          by_verdict (verdict key) (bytes b) (redact_value_content (bytes b)) (bytes b)
      redact_value key (other n) =
          by_verdict (verdict key) (other n) (redact_value_content (other n)) (other n)
      redact_value key (kvlist m) =
          by_verdict (verdict key) (kvlist m) (redact_value_content (kvlist m))
            (kvlist (redact_attributes m))
      redact_value key (slice vs) =
          by_verdict (verdict key) (slice vs) (redact_value_content (slice vs))
            (slice (redact_slice key vs))

      pub redact_attributes : Attributes → Attributes
      redact_attributes end = end
      redact_attributes (entry k v m) = entry k (redact_value k v) (redact_attributes m)

      pub redact_slice : Str → Values → Values
      redact_slice key nil = nil
      redact_slice key (cons v vs) = cons (redact_value key v) (redact_slice key vs)
