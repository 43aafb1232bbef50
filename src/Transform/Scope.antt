-- ===== src/Transform/Scope.antt =====
-- nrtransform/transformer.go: NewTransformer and Transform, and nrtransform/processor.go.
use nrdot_host.Common.{
  ℕ, suc, List, [], ◌∷◌, ◌++◌, Bool, true, false, Option, none, some, ◌>>=◌, if◌then◌else◌, Str,
  Str-discrete, str_eq, ℕ_discrete,
}
use nrdot_host.Common.Dict.{insert}
use mathlib.Core.List.{lookup}
use nrdot_host.Security.Config.{is_empty}
use nrdot_host.Transform.Metric.{Numbers, Metric}
use nrdot_host.Transform.Config.{TransformationConfig, TransformationType, combine, Config}
use nrdot_host.Transform.Calculator.{StateStore}
use nrdot_host.Transform.Transformer.{Expressions, MetricMap, apply_transformation}

pub record Transformer (F P : Type 0) : Type 0 where
  pub config : Config
  pub state_store : StateStore F
  pub programs : List (ℕ × P)

abbrev is_combine : TransformationType → Bool
is_combine combine = true
is_combine _ = false

abbrev needs_program : TransformationConfig → Bool
needs_program t =
    if is_combine t.type then (if is_empty t.expression then false else true) else false

module _ {V F P : Type 0} (num : Numbers V F) (ex : Expressions P F) where
  -- `none` is the error of an expression that does not compile.
  unfoldable pub compile_all : ℕ → List TransformationConfig → Option (List (ℕ × P))
  compile_all i [] = some []
  compile_all i (t ∷ ts) =
      let rest = compile_all (suc i) ts in
      if needs_program t
      then (ex.compile t.expression >>= λ program.
          rest >>= λ programs. some ((i, program) ∷ programs))
      else rest

  unfoldable pub new_transformer : Config → Option (Transformer F P)
  unfolding compile_all
  new_transformer config = compile_all 0 config.transformations >>= λ programs.
      some (record { config = config; state_store = []; programs = programs })

  -- What the loop over the transformations changes.
  pub record Progress : Type 0 where
    pub all_metrics : List (Metric V F)
    pub metric_map : MetricMap V F
    pub metrics_to_remove : List Str
    pub store : StateStore F

  -- A later metric of the same name takes the place of an earlier one.
  unfoldable pub add_to_map : List (Metric V F) → MetricMap V F → MetricMap V F
  add_to_map [] metric_map = metric_map
  add_to_map (m ∷ ms) metric_map = add_to_map ms (insert Str-discrete m.name m metric_map)

  abbrev note_outcome : Option (List (Metric V F) × List Str) × StateStore F → Progress → Progress
  note_outcome (none, store) p = record p { store = store }
  note_outcome (some (transformed, to_remove), store) p = record {
    all_metrics = p.all_metrics ++ transformed;
    metric_map = add_to_map transformed p.metric_map;
    metrics_to_remove = p.metrics_to_remove ++ to_remove;
    store = store;
  }

  -- An error of one transformation is logged, and the next one is applied.
  unfoldable pub apply_all :
      List (ℕ × P) → List (Metric V F) → ℕ → List TransformationConfig → Progress → Progress
  unfolding apply_transformation add_to_map
  apply_all programs originals i [] p = p
  apply_all programs originals i (t ∷ ts) p = apply_all programs originals (suc i) ts (
      note_outcome
        (apply_transformation num ex t originals p.metric_map (lookup ℕ_discrete i programs)
          p.store)
        p)

  abbrev is_removed : List Str → Str → Bool
  is_removed [] name = false
  is_removed (n ∷ ns) name = let r = is_removed ns name in if str_eq n name then true else r

  unfoldable pub keep_metrics : List Str → List (Metric V F) → List (Metric V F)
  unfolding str_eq
  keep_metrics to_remove [] = []
  keep_metrics to_remove (m ∷ ms) =
      let rest = keep_metrics to_remove ms in if is_removed to_remove m.name then rest else m ∷ rest

  -- The slots are written over and new ones appended, and none is taken away.
  unfoldable pub rebuild : List (Metric V F) → List (Metric V F) → List (Metric V F)
  rebuild [] originals = originals
  rebuild (m ∷ ms) [] = m ∷ ms
  rebuild (m ∷ ms) (o ∷ os) = m ∷ rebuild ms os

  abbrev pub progress_of : List (Metric V F) → StateStore F → Progress
  progress_of originals store = record {
    all_metrics = originals;
    metric_map = add_to_map originals [];
    metrics_to_remove = [];
    store = store;
  }

  unfoldable pub transform_scope :
      Transformer F P → List (Metric V F) → List (Metric V F) × Transformer F P
  unfolding apply_all keep_metrics rebuild
  transform_scope t originals =
      let p =
        apply_all t.programs originals 0 t.config.transformations
          (progress_of originals t.state_store) in
      (
        rebuild (keep_metrics p.metrics_to_remove p.all_metrics) originals,
        record t { state_store = p.store },
      )

  unfoldable pub transform_scopes :
      Transformer F P → List (List (Metric V F)) → List (List (Metric V F)) × Transformer F P
  unfolding transform_scope
  transform_scopes t [] = ([], t)
  transform_scopes t (s ∷ ss) =
      let first = transform_scope t s in
      let rest = transform_scopes first.1 ss in (first.0 ∷ rest.0, rest.1)

  -- The resources, with the metrics of their scopes.
  unfoldable pub transform :
      Transformer F P
      → List (List (List (Metric V F)))
      → List (List (List (Metric V F))) × Transformer F P
  unfolding transform_scopes
  transform t [] = ([], t)
  transform t (r ∷ rs) =
      let first = transform_scopes t r in
      let rest = transform first.1 rs in (first.0 ∷ rest.0, rest.1)

  -- `none` is the error of `NewTransformer`; the transformer is made at the first call.
  unfoldable pub process_metrics :
      Config
      → Option (Transformer F P)
      → List (List (List (Metric V F)))
      → Option (List (List (List (Metric V F))) × Transformer F P)
  unfolding transform new_transformer
  process_metrics config none metrics = new_transformer config >>= λ t. some (transform t metrics)
  process_metrics config (some t) metrics = some (transform t metrics)
