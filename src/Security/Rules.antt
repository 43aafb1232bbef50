-- ===== src/Security/Rules.antt =====
-- nrsecurity: what makes a key or a text sensitive, without the code's tests, and that the tests of
-- redactor.go decide it.
use nrdot_host.Common.{
  ◌≡◌, ◌⊎◌, inl, inr, refl, sym, ap, subst, List, [], ◌∷◌, ◌++◌, Bool-cases, true, false, if_split,
  Str, Str-discrete, str_eq, arith,
}
use nrdot_host.Common.Pointwise.{Member}
use nrdot_host.Security.Patterns.{Regexp, RedactionPattern, matches_any, matches_any_of}
use nrdot_host.Security.Redactor.{
  Redactor, Verdict, allowed, redacted, inspected, in_set, has_prefix, contains, contains_keyword,
  verdict, should_redact_string,
}

-- A text begins with another, and has it somewhere.
abbrev pub Prefix : Str → Str → Type 0
Prefix sub s = (rest : Str) × (s ≡ sub ++ rest)

abbrev pub Infix : Str → Str → Type 0
Infix sub s = (before : Str) × (rest : Str) × (s ≡ before ++ (sub ++ rest))

in_set-Member : (ks : List Str) (key : Str) → in_set ks key ≡ true → Member key ks
unfolding str_eq
in_set-Member [] key h = absurd (ground (arith, h))
in_set-Member (k ∷ ks) key h = elim (Str-discrete key k) [
  | yes e ↦ inl e
  | no ne ↦ inr (in_set-Member ks key (ground (arith, h, ne)))
]

Member-in_set : (ks : List Str) (key : Str) → Member key ks → in_set ks key ≡ true
unfolding str_eq
Member-in_set [] key h = absurd h
Member-in_set (k ∷ ks) key (inl e) = ground (arith, e)
Member-in_set (k ∷ ks) key (inr h) = ground (arith, Member-in_set ks key h)

has_prefix-Prefix : (s sub : Str) → has_prefix s sub ≡ true → Prefix sub s
unfolding has_prefix
has_prefix-Prefix s [] h = (s, refl)
has_prefix-Prefix [] (p ∷ ps) h = absurd (ground (arith, h))
has_prefix-Prefix (c ∷ s) (p ∷ ps) h =
    let (rest, e) = has_prefix-Prefix s ps (ground (arith, h)) in
    let same : c ≡ p = ground (arith, h) in (rest, cc)

Prefix-has_prefix : (sub rest : Str) → has_prefix (sub ++ rest) sub ≡ true
unfolding has_prefix
Prefix-has_prefix [] rest = start rest
  where
    start : (s : Str) → has_prefix s [] ≡ true
    start [] = refl
    start (c ∷ s) = refl
Prefix-has_prefix (p ∷ ps) rest = ground (arith, Prefix-has_prefix ps rest)

contains-Infix : (s sub : Str) → contains s sub ≡ true → Infix sub s
unfolding contains
contains-Infix [] sub h = let (rest, e) = has_prefix-Prefix [] sub h in ([], rest, e)
contains-Infix (c ∷ s) sub h = elim (Bool-cases (has_prefix (c ∷ s) sub)) [
  | inl p ↦ let (rest, e) = has_prefix-Prefix (c ∷ s) sub p in ([], rest, e)
  | inr p ↦
      let (before, rest, e) = contains-Infix s sub (ground (arith, h, p)) in
      (c ∷ before, rest, ap (λ t. c ∷ t) e)
]

prefix-contains : (s sub : Str) → has_prefix s sub ≡ true → contains s sub ≡ true
unfolding contains
prefix-contains [] sub h = h
prefix-contains (c ∷ s) sub h = rw h refl

Infix-contains : (before sub rest : Str) → contains (before ++ (sub ++ rest)) sub ≡ true
unfolding contains
Infix-contains [] sub rest = prefix-contains (sub ++ rest) sub (Prefix-has_prefix sub rest)
Infix-contains (c ∷ before) sub rest = ground (arith, Infix-contains before sub rest)

-- A key has one of the keywords.
abbrev pub HasKeyword : List Str → Str → Type 0
HasKeyword keywords key = (keyword : Str) × Member keyword keywords × Infix keyword key

contains_keyword-HasKeyword :
    (ks : List Str) (key : Str) → contains_keyword ks key ≡ true → HasKeyword ks key
unfolding contains_keyword
contains_keyword-HasKeyword [] key h = absurd (ground (arith, h))
contains_keyword-HasKeyword (k ∷ ks) key h = elim (Bool-cases (contains key k)) [
  | inl c ↦ (k, inl refl, contains-Infix key k c)
  | inr c ↦
      let (keyword, m, i) = contains_keyword-HasKeyword ks key (ground (arith, h, c)) in
      (keyword, inr m, i)
]

HasKeyword-contains_keyword :
    (ks : List Str) (key keyword : Str)
    → Member keyword ks
    → contains key keyword ≡ true
    → contains_keyword ks key ≡ true
unfolding contains_keyword
HasKeyword-contains_keyword [] key keyword m h = absurd m
HasKeyword-contains_keyword (k ∷ ks) key keyword (inl e) h =
    let c : contains key k ≡ true = subst (λ w. contains key w ≡ true) e h in rw c refl
HasKeyword-contains_keyword (k ∷ ks) key keyword (inr m) h =
    ground (arith, HasKeyword-contains_keyword ks key keyword m h)

module _ {R : Type 0} (re : Regexp R) where
  -- One of the patterns matches the text.
  abbrev pub AnyMatches : List (RedactionPattern R) → Str → Type 0
  AnyMatches [] s = ⊥
  AnyMatches (p ∷ ps) s = (re.match_string p.pattern s ≡ true) ⊎ AnyMatches ps s

  matches-AnyMatches :
      (ps : List (RedactionPattern R)) (s : Str) → matches_any_of re ps s ≡ true → AnyMatches ps s
  unfolding matches_any_of
  matches-AnyMatches [] s h = absurd (ground (arith, h))
  matches-AnyMatches (p ∷ ps) s h = elim (Bool-cases (re.match_string p.pattern s)) [
    | inl c ↦ inl c
    | inr c ↦ inr (matches-AnyMatches ps s (ground (arith, h, c)))
  ]

  AnyMatches-matches :
      (ps : List (RedactionPattern R)) (s : Str) → AnyMatches ps s → matches_any_of re ps s ≡ true
  unfolding matches_any_of
  AnyMatches-matches [] s h = absurd h
  AnyMatches-matches (p ∷ ps) s (inl c) = rw c refl
  AnyMatches-matches (p ∷ ps) s (inr h) = ground (arith, AnyMatches-matches ps s h)

  module _ (r : Redactor R) where
    abbrev pub IsAllowed : Str → Type 0
    IsAllowed key = Member key r.allow_set

    -- The key is in the deny list, or has a keyword when it is written in lower case.
    abbrev pub IsDenied : Str → Type 0
    IsDenied key = Member key r.deny_set ⊎ HasKeyword r.keyword_set (re.to_lower key)

    -- A text that is not empty and that a pattern matches.
    abbrev pub IsSensitive : Str → Type 0
    IsSensitive [] = ⊥
    IsSensitive (c ∷ s) = AnyMatches r.pattern_manager.patterns (c ∷ s)

    pub should_redact_string-IsSensitive :
        (s : Str) → should_redact_string re r s ≡ true → IsSensitive s
    unfolding should_redact_string matches_any
    should_redact_string-IsSensitive [] h = absurd (ground (arith, h))
    should_redact_string-IsSensitive (c ∷ s) h =
        matches-AnyMatches r.pattern_manager.patterns (c ∷ s) h

    pub IsSensitive-should_redact_string :
        (s : Str) → IsSensitive s → should_redact_string re r s ≡ true
    unfolding should_redact_string matches_any
    IsSensitive-should_redact_string [] h = absurd h
    IsSensitive-should_redact_string (c ∷ s) h =
        AnyMatches-matches r.pattern_manager.patterns (c ∷ s) h

    pub not-IsSensitive : (s : Str) → should_redact_string re r s ≡ false → ¬ IsSensitive s
    not-IsSensitive s e h = absurd (ground (arith, e, IsSensitive-should_redact_string s h))

    -- What each verdict says of the key.
    abbrev Says : Str → Verdict → Type 0
    Says key allowed = IsAllowed key
    Says key redacted = (¬ IsAllowed key) × IsDenied key
    Says key inspected = (¬ IsAllowed key) × (¬ IsDenied key)

    not-IsDenied :
        (key : Str)
        → in_set r.deny_set key ≡ false
        → contains_keyword r.keyword_set (re.to_lower key) ≡ false
        → ¬ IsDenied key
    not-IsDenied key d k (inl m) = absurd (ground (arith, d, Member-in_set r.deny_set key m))
    not-IsDenied key d k (inr (keyword, m, (before, rest, e))) =
        let c : contains (re.to_lower key) keyword ≡ true =
          subst (λ t. contains t keyword ≡ true) (sym e) (Infix-contains before keyword rest) in
        absurd (
          ground
            (arith, k, HasKeyword-contains_keyword r.keyword_set (re.to_lower key) keyword m c))

    pub verdict-Says : (key : Str) → Says key (verdict re r key)
    unfolding verdict
    verdict-Says key =
        if_split (Says key) (in_set r.allow_set key) _ _ (in_set-Member r.allow_set key) (λ a.
          let out : ¬ IsAllowed key =
            λ m. absurd (ground (arith, a, Member-in_set r.allow_set key m)) in
          if_split (Says key) (in_set r.deny_set key) _ _
            (λ d. (out, inl (in_set-Member r.deny_set key d)))
            (λ d.
              if_split (Says key) (contains_keyword r.keyword_set (re.to_lower key)) _ _
                (λ k. (out, inr (contains_keyword-HasKeyword r.keyword_set (re.to_lower key) k)))
                (λ k. (out, not-IsDenied key d k))))

    -- Nothing is asked under an allowed key, `A` under a denied one, and `B` under any other.
    abbrev pub Rule : Str → Type 0 → Type 0 → Type 0
    Rule key A B = (¬ IsAllowed key) → (IsDenied key → A) × ((¬ IsDenied key) → B)

    pub allowed-Rule : (key : Str) (A B : Type 0) → verdict re r key ≡ allowed → Rule key A B
    allowed-Rule key A B e out = absurd (out (subst (Says key) e (verdict-Says key)))

    pub redacted-Rule : (key : Str) (A B : Type 0) → verdict re r key ≡ redacted → A → Rule key A B
    redacted-Rule key A B e a out =
        (λ _. a, λ no. absurd (no (subst (Says key) e (verdict-Says key)).1))

    pub inspected-Rule :
        (key : Str) (A B : Type 0) → verdict re r key ≡ inspected → B → Rule key A B
    inspected-Rule key A B e b out =
        (λ yes. absurd ((subst (Says key) e (verdict-Says key)).1 yes), λ _. b)

    pub Rule-redacted : (key : Str) (A B : Type 0) → verdict re r key ≡ redacted → Rule key A B → A
    Rule-redacted key A B e h =
        let (out, denied) = subst (Says key) e (verdict-Says key) in (h out).0 denied

    pub Rule-inspected :
        (key : Str) (A B : Type 0) → verdict re r key ≡ inspected → Rule key A B → B
    Rule-inspected key A B e h =
        let (out, fine) = subst (Says key) e (verdict-Says key) in (h out).1 fine
