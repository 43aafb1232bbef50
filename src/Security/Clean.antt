-- ===== src/Security/Clean.antt =====
-- nrsecurity: what the redaction guarantees.
use nrdot_host.Common.{◌≡◌, ◌⊎◌, inl, inr, refl, if_split, Str}
use nrdot_host.Security.Value.{
  Value, Values, Attributes, str, bytes, other, kvlist, slice, nil, cons, end, entry,
}
use nrdot_host.Security.Patterns.{Regexp}
use nrdot_host.Security.Rules.{
  IsSensitive, Rule, not-IsSensitive, allowed-Rule, redacted-Rule, inspected-Rule,
}
use nrdot_host.Security.Redactor.{
  Redactor, Verdict, allowed, redacted, inspected, by_verdict, verdict, should_redact_string,
  redact_value_content, redact_contents, redact_elements, redact_value, redact_attributes,
  redact_slice,
}

-- To prove something of the outcome of a verdict, case by case.
pub by_verdict_split {ℓ κ} :
    {A : Type ℓ} (P : A → Type κ) (c : Verdict) (x y z : A)
    → (c ≡ allowed → P x)
    → (c ≡ redacted → P y)
    → (c ≡ inspected → P z)
    → P (by_verdict c x y z)
by_verdict_split P allowed x y z h k l = h refl
by_verdict_split P redacted x y z h k l = k refl
by_verdict_split P inspected x y z h k l = l refl

module _ {R : Type 0} (re : Regexp R) (r : Redactor R) where
  abbrev pub replacement : Str
  replacement = r.config.replacement_text

  -- Every text and all bytes in a value are the replacement text.
  abbrev mutual
    pub Masked : Value → Type 0
    Masked (str s) = s ≡ replacement
    Masked (bytes b) = b ≡ replacement
    Masked (other n) = Unit
    Masked (kvlist m) = MaskedAll m
    Masked (slice vs) = MaskedEach vs

    pub MaskedAll : Attributes → Type 0
    MaskedAll end = Unit
    MaskedAll (entry k v m) = Masked v × MaskedAll m

    pub MaskedEach : Values → Type 0
    MaskedEach nil = Unit
    MaskedEach (cons v vs) = Masked v × MaskedEach vs

  -- What may stay of a value under a key: all of it, if the key is allowed; nothing but numbers, if
  -- the key is denied or has a keyword; else no sensitive text, and inside a map the same again.
  abbrev mutual
    pub Clean : Str → Value → Type 0
    Clean key (str s) = Rule re r key (s ≡ replacement) ((s ≡ replacement) ⊎ (¬ IsSensitive re r s))
    Clean key (bytes b) = Rule re r key (b ≡ replacement) Unit
    Clean key (other n) = Unit
    Clean key (kvlist m) = Rule re r key (MaskedAll m) (CleanAll m)
    Clean key (slice vs) = Rule re r key (MaskedEach vs) (CleanEach key vs)

    pub CleanAll : Attributes → Type 0
    CleanAll end = Unit
    CleanAll (entry k v m) = Clean k v × CleanAll m

    pub CleanEach : Str → Values → Type 0
    CleanEach key nil = Unit
    CleanEach key (cons v vs) = Clean key v × CleanEach key vs

  mutual
    unfolding redact_value_content

    content-Masked : (v : Value) → Masked (redact_value_content re r v)
    content-Masked (str s) = refl
    content-Masked (bytes b) = refl
    content-Masked (other n) = tt
    content-Masked (kvlist m) = contents-MaskedAll m
    content-Masked (slice vs) = elements-MaskedEach vs

    contents-MaskedAll : (m : Attributes) → MaskedAll (redact_contents re r m)
    contents-MaskedAll end = tt
    contents-MaskedAll (entry k v m) = (content-Masked v, contents-MaskedAll m)

    elements-MaskedEach : (vs : Values) → MaskedEach (redact_elements re r vs)
    elements-MaskedEach nil = tt
    elements-MaskedEach (cons v vs) = (content-Masked v, elements-MaskedEach vs)

  mutual
    unfolding redact_value redact_value_content

    redact-Clean : (key : Str) (v : Value) → Clean key (redact_value re r key v)
    redact-Clean key (str s) =
        by_verdict_split (Clean key) (verdict re r key) _ _ _ (allowed-Rule re r key _ _)
          (λ e. redacted-Rule re r key _ _ e refl)
          (λ e.
            if_split {A = Value} (Clean key) (should_redact_string re r s) _ _
              (λ _. inspected-Rule re r key _ _ e (inl refl))
              (λ q. inspected-Rule re r key _ _ e (inr (not-IsSensitive re r s q))))
    redact-Clean key (bytes b) =
        by_verdict_split (Clean key) (verdict re r key) _ _ _ (allowed-Rule re r key _ _)
          (λ e. redacted-Rule re r key _ _ e refl) (λ e. inspected-Rule re r key _ _ e tt)
    redact-Clean key (other n) =
        by_verdict_split (Clean key) (verdict re r key) _ _ _ (λ e. tt) (λ e. tt) (λ e. tt)
    redact-Clean key (kvlist m) =
        by_verdict_split (Clean key) (verdict re r key) _ _ _ (allowed-Rule re r key _ _)
          (λ e. redacted-Rule re r key _ _ e (contents-MaskedAll m))
          (λ e. inspected-Rule re r key _ _ e (redact-CleanAll m))
    redact-Clean key (slice vs) =
        by_verdict_split (Clean key) (verdict re r key) _ _ _ (allowed-Rule re r key _ _)
          (λ e. redacted-Rule re r key _ _ e (elements-MaskedEach vs))
          (λ e. inspected-Rule re r key _ _ e (redact-CleanEach key vs))

    redact-CleanAll : (m : Attributes) → CleanAll (redact_attributes re r m)
    redact-CleanAll end = tt
    redact-CleanAll (entry k v m) = (redact-Clean k v, redact-CleanAll m)

    redact-CleanEach : (key : Str) (vs : Values) → CleanEach key (redact_slice re r key vs)
    redact-CleanEach key nil = tt
    redact-CleanEach key (cons v vs) = (redact-Clean key v, redact-CleanEach key vs)

  -- In redacted attributes, an entry whose key is in the allow list may hold anything. Where the key is
  -- in the deny list, or has a keyword in lower case, all texts and bytes in the value are the
  -- replacement text. Under any other key a text that is not the replacement text matches no pattern,
  -- the elements of a slice count as under the same key, and the entries of a map are judged likewise.
  pub redact_attributes-CleanAll : (m : Attributes) → CleanAll (redact_attributes re r m)
  redact_attributes-CleanAll m = redact-CleanAll m
