-- ===== src/Tests/Data.antt =====
-- A plain environment for nrcap, in which texts are the values, and telemetry to run it on.
use mathlib.Core.List.Permᴰ
use nrdot_host.Common.{
  ℕ, ◌+◌, ◌*◌, ◌%◌, ◌≡◌, refl, List, [], ◌∷◌, Bool, true, false, Option, none, some, arith, Str,
  codes, All, Ensures, Ensures-some, remove_where,
}
use nrdot_host.Common.Int.{pos}
use nrdot_host.Cap.Metric.{Attributes, DataPoint, Metrics, gauge}
use nrdot_host.Cap.Config.{Config, drop, second}
use nrdot_host.Cap.Env.{Env, RemoveIf, IsRemoveIf, IsRange}
use nrdot_host.Cap.Tracker.{Tracker}
use nrdot_host.Cap.Limiter.{Limiter}

abbrev pub checksum : Str → ℕ
checksum [] = 7
checksum (c ∷ cs) = (c + 31 * checksum cs) % 1000003

module _ {A : Type 0} where
  -- The elements one by one; the callback sees the slice as it was at first.
  abbrev pub walk : (A → Option Bool) → List A → Option (List A)
  walk f [] = some []
  walk f (x ∷ xs) =
      let rest = walk f xs in
      elim (f x) [
        | none ↦ none
        | some gone ↦ elim rest [
          | none ↦ none
          | some kept ↦ some (elim gone [ true ↦ kept | false ↦ x ∷ kept ])
        ]
      ]

  abbrev pub plain_remove : RemoveIf A
  plain_remove f xs = walk (f xs) xs

  walk_removes :
      (f : A → Option Bool) (p : A → Bool) (xs : List A)
      → ((x : A) → f x ≡ some (p x))
      → walk f xs ≡ some (remove_where p xs)
  unfolding remove_where
  walk_removes f p [] h = refl
  walk_removes f p (x ∷ xs) h = go (f x) (h x) (walk f xs) (walk_removes f p xs h)
    where
      go :
          (b : Option Bool)
          → b ≡ some (p x)
          → (r : Option (List A)) → r ≡ some (remove_where p xs)
          → (elim b [
            | none ↦ none
            | some gone ↦ elim r [
              | none ↦ none
              | some kept ↦ some (elim gone [ true ↦ kept | false ↦ x ∷ kept ])
            ]
          ])
            ≡ some (remove_where p (x ∷ xs))
      go b e r k = rw (e, k) (ground arith)

  walk_only :
      (f : A → Option Bool) (P : A → Type 0) (xs : List A) → All P xs → Ensures (All P) (walk f xs)
  walk_only f P [] h = tt
  walk_only f P (x ∷ xs) (h, hs) = go (f x) (walk f xs) (walk_only f P xs hs)
    where
      go :
          (b : Option Bool) (r : Option (List A))
          → Ensures (All P) r
          → Ensures (All P) (elim b [
            | none ↦ none
            | some gone ↦ elim r [
              | none ↦ none
              | some kept ↦ some (elim gone [ true ↦ kept | false ↦ x ∷ kept ])
            ]
          ])
      go none r k = tt
      go (some true) none k = tt
      go (some false) none k = tt
      go (some true) (some kept) k = k
      go (some false) (some kept) k = (h, k)

  pub plain_remove-IsRemoveIf : IsRemoveIf plain_remove
  plain_remove-IsRemoveIf = record {
    removes = λ f p xs h. walk_removes (f xs) p xs (h xs);
    only_removes =
        λ f P xs ys e h. Ensures-some (All P) (walk (f xs) xs) ys (walk_only (f xs) P xs h) e;
  }

abbrev pub plain : Env Str
plain = record {
  as_string = λ s. s;
  of_string = λ s. s;
  sum64 = checksum;
  now = λ n. n + 1000 * second;
  rand = λ n. n * 17;
  range = λ m. m;
  remove_points = plain_remove;
  remove_metrics = plain_remove;
}

pub plain-IsRange : IsRange plain
plain-IsRange m = Permᴰ.refl m

abbrev pub cfg : Config
cfg = record {
  global_limit = 10;
  metric_limits = (codes "cpu", 1) ∷ [];
  default_limit = 3;
  strategy = drop;
  deny_labels = codes "secret" ∷ [];
  allow_labels = [];
  reset_interval = 60;
  enable_stats = true;
  sample_rate = 5;
  aggregation_labels = [];
  window_size = 300 * second;
  alert_threshold = pos 90;
}

-- The attributes of a host, with a label that is denied.
abbrev pub host : Str → Attributes Str
host name = (codes "host", name) ∷ (codes "secret", codes "x") ∷ []

abbrev pub a_point : Str → ℕ → DataPoint Str
a_point name time = record { attributes = host name; timestamp = time; content = 5 }

abbrev pub two_points : List (DataPoint Str)
two_points = a_point (codes "a") 1 ∷ a_point (codes "b") 2 ∷ []

abbrev pub batch : Metrics Str
batch =
    record {
      resource = 1;
      scopes =
          record {
            scope = 2;
            metrics = record { name = codes "cpu"; type = gauge; points = two_points } ∷ [];
          }
          ∷ [];
    }
    ∷ []

abbrev pub empty_tracker : Tracker
empty_tracker = record {
  metrics = [];
  global_count = 0;
  metric_counts = [];
  window_size = 300 * second;
  stats = record {
    total_metrics = 0;
    dropped_metrics = 0;
    aggregated_metrics = 0;
    sampled_metrics = 0;
    metric_cardinalities = [];
    high_cardinality_labels = [];
    last_reset = 0;
  };
  ticks = 1;
}

abbrev pub empty_limiter : Limiter
empty_limiter = record {
  tracker = empty_tracker;
  label_cardinality = [];
  alerts_sent = [];
  draws = 0;
}

-- A tracker with two entries of one metric, the first of them outside the window.
abbrev pub busy_tracker : Tracker
busy_tracker = record empty_tracker {
  metrics = (codes "cpu", (11, 5) ∷ (12, 900 * second) ∷ []) ∷ [];
  global_count = 2;
  metric_counts = (codes "cpu", 2) ∷ [];
}
