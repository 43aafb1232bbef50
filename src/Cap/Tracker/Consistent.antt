-- ===== src/Cap/Tracker/Consistent.antt =====
-- nrcap/tracker.go: the counts agree with the maps, and every single-entry operation keeps that.
use mathlib.Core.List.{lookup}
use nrdot_host.Common.Dict.{
  or_else, insert, delete, Distinct, AllValues, AllValues-lookup, AllValues-insert, lookup-insert,
  insert-Distinct, delete-Distinct, length-insert_new, length-insert_old, length-delete_old,
  size_at, total-insert,
}
use nrdot_host.Common.Dict
use nrdot_host.Common.{
  ℕ, ◌+◌, ◌≡◌, List, Option-cases, inl, inr, length, arith, Str, Str-discrete, ℕ_discrete,
}
use nrdot_host.Cap.Tracker.{Labels, Tracker, get_cardinality, labels_at}

abbrev pub total_labels : List (Str × Labels) → ℕ
total_labels = Dict.total Str-discrete length

-- A key occurs once in every map, each count is the number of a metric's labels, and the global
-- count is the number of all labels.
pub record IsConsistent (metrics : List (Str × Labels)) (counts : List (Str × ℕ)) (global : ℕ)
    : Type 0 where
  pub names : Distinct Str-discrete metrics
  pub labels : AllValues Str-discrete (Distinct ℕ_discrete) metrics
  pub counted :
      (name : Str)
      → or_else (lookup Str-discrete name counts) 0
        ≡ size_at Str-discrete length (lookup Str-discrete name metrics)
  pub global_counted : global ≡ total_labels metrics

abbrev pub IsValid : Tracker → Type 0
IsValid t = IsConsistent t.metrics t.metric_counts t.global_count

module _ {m : List (Str × Labels)} {c : List (Str × ℕ)} {g : ℕ} (h : IsConsistent m c g)
    (name : Str) (ls : Labels) (d : Distinct ℕ_discrete ls) where
  -- New labels for a metric, with the counts written anew.
  pub IsConsistent-insert :
      (n g' : ℕ)
      → n ≡ length ls
      → g' + size_at Str-discrete length (lookup Str-discrete name m) ≡ g + length ls
      → IsConsistent (insert Str-discrete name ls m) (insert Str-discrete name n c) g'
  IsConsistent-insert n g' q e = record {
    names = insert-Distinct Str-discrete name ls m h.names;
    labels = AllValues-insert Str-discrete (Distinct ℕ_discrete) name ls m d h.labels;
    counted = λ j. ground (
      arith,
      lookup-insert Str-discrete j name ls m,
      lookup-insert Str-discrete j name n c,
      h.counted j,
    );
    global_counted = omega (arith, total-insert Str-discrete length name ls m, h.global_counted);
  }

  -- As many labels as before, and the counts left alone.
  pub IsConsistent-replace :
      length ls ≡ size_at Str-discrete length (lookup Str-discrete name m)
      → IsConsistent (insert Str-discrete name ls m) c g
  IsConsistent-replace e = record {
    names = insert-Distinct Str-discrete name ls m h.names;
    labels = AllValues-insert Str-discrete (Distinct ℕ_discrete) name ls m d h.labels;
    counted = λ j. ground (arith, lookup-insert Str-discrete j name ls m, h.counted j);
    global_counted = omega (arith, total-insert Str-discrete length name ls m, h.global_counted);
  }

pub labels_at-Distinct :
    (name : Str) (t : Tracker) → IsValid t → Distinct ℕ_discrete (labels_at name t)
labels_at-Distinct name t h = elim (Option-cases (lookup Str-discrete name t.metrics)) [
  | inl e ↦ rw e tt
  | inr (ls, e) ↦
      rw e (AllValues-lookup Str-discrete (Distinct ℕ_discrete) name ls t.metrics h.labels e)
]

pub length-labels_at :
    (name : Str) (t : Tracker) → IsValid t → get_cardinality name t ≡ length (labels_at name t)
length-labels_at name t h = ground (arith, h.counted name)
