-- ===== src/Security/Unchanged.antt =====
-- nrsecurity: the redaction changes nothing that is not sensitive.
use nrdot_host.Common.{◌≡◌, ◌↔◌, ◌⊎◌, inl, inr, refl, sym, ap, subst, if_split, if◌then◌else◌, Str}
use nrdot_host.Security.Value.{
  Value, Values, Attributes, str, bytes, other, kvlist, slice, nil, cons, end, entry,
}
use nrdot_host.Security.Patterns.{Regexp}
use nrdot_host.Security.Rules.{
  IsSensitive, should_redact_string-IsSensitive, Rule-redacted, Rule-inspected,
}
use nrdot_host.Security.Redactor.{
  Redactor, verdict, should_redact_string, redact_value_content, redact_contents, redact_elements,
  redact_value, redact_attributes, redact_slice,
}
use nrdot_host.Security.Clean.{
  by_verdict_split, replacement, Masked, MaskedAll, MaskedEach, Clean, CleanAll, CleanEach,
  redact_attributes-CleanAll,
}

module _ {R : Type 0} (re : Regexp R) (r : Redactor R) where
  mutual
    unfolding redact_value_content

    content_same : (v : Value) → Masked re r v → redact_value_content re r v ≡ v
    content_same (str s) h = ap str (sym h)
    content_same (bytes b) h = ap bytes (sym h)
    content_same (other n) h = refl
    content_same (kvlist m) h = ap kvlist (contents_same m h)
    content_same (slice vs) h = ap slice (elements_same vs h)

    contents_same : (m : Attributes) → MaskedAll re r m → redact_contents re r m ≡ m
    contents_same end h = refl
    contents_same (entry k v m) (h, hs) = cc (content_same v h, contents_same m hs)

    elements_same : (vs : Values) → MaskedEach re r vs → redact_elements re r vs ≡ vs
    elements_same nil h = refl
    elements_same (cons v vs) (h, hs) = cc (content_same v h, elements_same vs hs)

  text_same :
      (s : Str)
      → (s ≡ (replacement re r)) ⊎ (¬ IsSensitive re r s)
      → (if should_redact_string re r s then str (replacement re r) else str s) ≡ str s
  text_same s (inl e) =
      if_split {A = Value} (λ v. v ≡ str s) (should_redact_string re r s) _ _ (λ _. ap str (sym e))
        (λ _. refl)
  text_same s (inr fine) =
      if_split {A = Value} (λ v. v ≡ str s) (should_redact_string re r s) _ _
        (λ q. absurd (fine (should_redact_string-IsSensitive re r s q))) (λ _. refl)

  mutual
    unfolding redact_value redact_value_content

    value_same : (key : Str) (v : Value) → Clean re r key v → redact_value re r key v ≡ v
    value_same key (str s) h =
        by_verdict_split (λ v. v ≡ str s) (verdict re r key) _ _ _ (λ e. refl)
          (λ e. ap str (sym (Rule-redacted re r key _ _ e h)))
          (λ e. text_same s (Rule-inspected re r key _ _ e h))
    value_same key (bytes b) h =
        by_verdict_split (λ v. v ≡ bytes b) (verdict re r key) _ _ _ (λ e. refl)
          (λ e. ap bytes (sym (Rule-redacted re r key _ _ e h))) (λ e. refl)
    value_same key (other n) h =
        by_verdict_split (λ v. v ≡ other n) (verdict re r key) _ _ _ (λ e. refl) (λ e. refl)
          (λ e. refl)
    value_same key (kvlist m) h =
        by_verdict_split (λ v. v ≡ kvlist m) (verdict re r key) _ _ _ (λ e. refl)
          (λ e. ap kvlist (contents_same m (Rule-redacted re r key _ _ e h)))
          (λ e. ap kvlist (attributes_same m (Rule-inspected re r key _ _ e h)))
    value_same key (slice vs) h =
        by_verdict_split (λ v. v ≡ slice vs) (verdict re r key) _ _ _ (λ e. refl)
          (λ e. ap slice (elements_same vs (Rule-redacted re r key _ _ e h)))
          (λ e. ap slice (slice_same key vs (Rule-inspected re r key _ _ e h)))

    attributes_same : (m : Attributes) → CleanAll re r m → redact_attributes re r m ≡ m
    attributes_same end h = refl
    attributes_same (entry k v m) (h, hs) = cc (value_same k v h, attributes_same m hs)

    slice_same : (key : Str) (vs : Values) → CleanEach re r key vs → redact_slice re r key vs ≡ vs
    slice_same key nil h = refl
    slice_same key (cons v vs) (h, hs) = cc (value_same key v h, slice_same key vs hs)

  -- Redaction leaves attributes as they are exactly if they are clean: under a key that is not in the
  -- allow list, all texts and bytes are the replacement text where the key is in the deny list or has
  -- a keyword in lower case, and a text matches no pattern, or is the replacement text, under any other.
  pub redact_attributes_unchanged :
      (m : Attributes) → (redact_attributes re r m ≡ m) ↔ CleanAll re r m
  redact_attributes_unchanged m =
      (λ e. subst (CleanAll re r) e (redact_attributes-CleanAll re r m), attributes_same m)

  -- A second redaction changes nothing.
  pub redact_attributes_idem :
      (m : Attributes)
      → redact_attributes re r (redact_attributes re r m) ≡ redact_attributes re r m
  redact_attributes_idem m =
      attributes_same (redact_attributes re r m) (redact_attributes-CleanAll re r m)
