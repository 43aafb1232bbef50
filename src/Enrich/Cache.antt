-- ===== src/Enrich/Cache.antt =====
-- The metadata that processors/nrenrich collects, and its age (collectMetadata of enricher.go).
use nrdot_host.Common.{
  Bool, ℕ, ◌+◌, ◌<◌, ◌≡◌, refl, ap, ◌∙◌, List, [], ◌∷◌, ◌⊎◌, inl, inr, Option, none, some, Str,
  Str-discrete, ltb, ltb→lt, if_split, ite,
}
use nrdot_host.Common.Dict.{insert, lookup-insert, Distinct, or_else}
use nrdot_host.Enrich.{
  Any, Metadata, Config, Enricher, CachedMetadata, Call, Provider, collect_metadata, collect_anew,
  collect_cached, new_enricher, gather, collect_providers, add_all,
}
use mathlib.Core.List.{lookup}

-- The metadata that a list of calls gets, one after the other.
unfoldable pub collect_all : Enricher → List Call → List Metadata
collect_all e [] = []
collect_all e (call ∷ calls) = let r = collect_metadata e call in r.1 ∷ collect_all r.0 calls

-- The metadata was stored at that time by one of the earlier calls, the last of which is first.
abbrev pub Stored : (Call → Metadata) → List Call → ℕ → Metadata → Type 0
Stored collect [] at md = ⊥
Stored collect (c ∷ past) at md = (md ≡ collect c × at ≡ c.stored) ⊎ Stored collect past at md

-- The call collected the metadata itself, or an earlier call stored it less than the TTL before.
abbrev pub Fresh : (Call → Metadata) → ℕ → List Call → Call → Metadata → Type 0
Fresh collect ttl past call md =
    (md ≡ collect call) ⊎ ((at : ℕ) × (call.now < at + ttl) × Stored collect past at md)

abbrev pub AllFresh : (Call → Metadata) → ℕ → List Call → List Call → List Metadata → Type 0
AllFresh collect ttl past [] mds = Unit
AllFresh collect ttl past (c ∷ calls) [] = ⊥
AllFresh collect ttl past (c ∷ calls) (md ∷ mds) =
    Fresh collect ttl past c md × AllFresh collect ttl (c ∷ past) calls mds

-- What is in the cache was stored by an earlier call.
abbrev CacheStored : (Call → Metadata) → List Call → Option CachedMetadata → Type 0
CacheStored collect past none = Unit
CacheStored collect past (some c) = Stored collect past c.timestamp c.data_of

later :
    (collect : Call → Metadata) (past : List Call) (call : Call) (o : Option CachedMetadata)
    → CacheStored collect past o
    → CacheStored collect (call ∷ past) o
later collect past call none h = tt
later collect past call (some c) h = inr h

-- One call and those after it, if those after it are fresh.
module _ (e : Enricher) (past : List Call) (call : Call) (calls : List Call) where
  abbrev FromHere : Enricher × Metadata → Type 0
  FromHere r =
      Fresh (gather e) e.config.ttl past call r.1
      × AllFresh (gather e) e.config.ttl (call ∷ past) calls (collect_all r.0 calls)

  abbrev Afterwards : Type 0
  Afterwards =
      (next : Enricher)
      → CacheStored (gather next) (call ∷ past) next.cache
      → AllFresh (gather next) next.config.ttl (call ∷ past) calls (collect_all next calls)

  anew-Fresh : Afterwards → FromHere (collect_anew e call)
  unfolding collect_anew gather
  anew-Fresh ih = (inl refl, ih (collect_anew e call).0 (inl (refl, refl)))

  cached-Fresh :
      (o : Option CachedMetadata)
      → Afterwards
      → CacheStored (gather e) past e.cache
      → CacheStored (gather e) past o
      → FromHere (collect_cached e call o)
  cached-Fresh none ih h s = anew-Fresh ih
  cached-Fresh (some c) ih h s =
      if_split FromHere (ltb call.now (c.timestamp + e.config.ttl)) _ _
        (λ b. (inr (c.timestamp, ltb→lt _ _ b, s), ih e (later (gather e) past call e.cache h)))
        (λ b. anew-Fresh ih)

collect_all_from :
    (calls past : List Call) (e : Enricher)
    → CacheStored (gather e) past e.cache
    → AllFresh (gather e) e.config.ttl past calls (collect_all e calls)
unfolding collect_all collect_metadata
collect_all_from [] past e h = tt
collect_all_from (call ∷ calls) past e h =
    cached-Fresh e past call calls e.cache (λ next. collect_all_from calls (call ∷ past) next) h h

-- Whatever the providers answer and the clock says, each of the calls that a new enricher gets, one
-- after the other, gets metadata that it collects itself or that an earlier call collected and stored
-- less than the TTL before.
pub collect_all-AllFresh :
    (found : Provider → Bool) (c : Config) (calls : List Call)
    → let e = new_enricher found c in AllFresh (gather e) c.ttl [] calls (collect_all e calls)
unfolding new_enricher
collect_all-AllFresh found c calls = collect_all_from calls [] (new_enricher found c) tt

abbrev pub first_some : Option Any → Option Any → Option Any
first_some (some v) o = some v
first_some none o = o

first_some_assoc :
    (a b c : Option Any) → first_some a (first_some b c) ≡ first_some (first_some a b) c
first_some_assoc (some v) b c = refl
first_some_assoc none b c = refl

first_some-none : (o : Option Any) → first_some o none ≡ o
first_some-none none = refl
first_some-none (some v) = refl

shadowed :
    (k j : Str) (v : Any) (a b : Option Any)
    → (k ≡ j → a ≡ none)
    → first_some a (ite (Str-discrete k j) (some v) b)
      ≡ first_some (ite (Str-discrete k j) (some v) a) b
shadowed k j v a b h =
    elim (Str-discrete k j)
      as (λ d. first_some a (ite d (some v) b) ≡ first_some (ite d (some v) a) b) [
        | yes p ↦ rw (h p) refl
        | no p ↦ refl
      ]

lookup-add_all :
    (k : Str) (from metadata : Metadata)
    → Distinct Str-discrete from
    → lookup Str-discrete k (add_all metadata from)
      ≡ first_some (lookup Str-discrete k from) (lookup Str-discrete k metadata)
unfolding add_all lookup
lookup-add_all k [] metadata d = refl
lookup-add_all k ((j, v) ∷ from) metadata d =
    rw
      (lookup-add_all k from (insert Str-discrete j v metadata) d.1, lookup-insert Str-discrete k j)
      (shadowed k j v (lookup Str-discrete k from) (lookup Str-discrete k metadata)
        (λ p. ap (λ i. lookup Str-discrete i from) p ∙ d.0))

-- What the last of the providers that know the key says of it.
abbrev pub newest : (Provider → Option Metadata) → Str → List Provider → Option Any
newest get k [] = none
newest get k (p ∷ ps) = first_some (newest get k ps) (lookup Str-discrete k (or_else (get p) []))

abbrev pub AnswersDistinct : (Provider → Option Metadata) → Type 0
AnswersDistinct get = (p : Provider) → Distinct Str-discrete (or_else (get p) [])

lookup-collect_providers :
    (k : Str) (get : Provider → Option Metadata) (ps : List Provider) (metadata : Metadata)
    → AnswersDistinct get
    → lookup Str-discrete k (collect_providers get ps metadata)
      ≡ first_some (newest get k ps) (lookup Str-discrete k metadata)
unfolding collect_providers
lookup-collect_providers k get [] metadata d = refl
lookup-collect_providers k get (p ∷ ps) metadata d =
    rw
      (
        lookup-collect_providers k get ps (add_all metadata (or_else (get p) [])) d,
        lookup-add_all k (or_else (get p) []) metadata (d p),
      )
      (first_some_assoc (newest get k ps) _ (lookup Str-discrete k metadata))

-- Metadata collected anew has under each key what the last of the providers that know the key says of
-- it, and the static attribute where none knows it; providers that fail count as knowing nothing. The
-- maps have no key twice.
pub lookup-gather :
    (e : Enricher) (call : Call) (k : Str)
    → Distinct Str-discrete e.config.static_attributes
    → AnswersDistinct call.get_metadata
    → lookup Str-discrete k (gather e call)
      ≡ first_some
          (newest call.get_metadata k e.providers)
          (lookup Str-discrete k e.config.static_attributes)
unfolding gather lookup
lookup-gather e call k s d =
    rw
      (
        lookup-collect_providers k call.get_metadata e.providers _ d,
        lookup-add_all k e.config.static_attributes [] s,
      )
      (ap (first_some (newest call.get_metadata k e.providers))
        (first_some-none (lookup Str-discrete k e.config.static_attributes)))
