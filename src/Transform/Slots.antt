-- ===== src/Transform/Slots.antt =====
-- nrtransform: the metrics of a scope after the transformations.
use nrdot_host.Common.{◌≤◌, ◌≡◌, refl, sym, ap, List, [], ◌∷◌, ◌++◌, length, drop, arith}
use mathlib.Core.List.{append-nil}
use nrdot_host.Transform.Metric.{Numbers, Metric}
use nrdot_host.Transform.Transformer.{Expressions}
use nrdot_host.Transform.Scope.{Transformer, rebuild, transform_scope}

module _ {V F P : Type 0} (num : Numbers V F) (ex : Expressions P F) where
  pub rebuild_lem :
      (kept originals : List (Metric V F))
      → rebuild num ex kept originals ≡ kept ++ drop (length kept) originals
  unfolding rebuild
  rebuild_lem [] originals = refl
  rebuild_lem (m ∷ ms) [] = ap (λ r. m ∷ r) (sym (append-nil ms))
  rebuild_lem (m ∷ ms) (o ∷ os) = ap (λ r. m ∷ r) (rebuild_lem ms os)

  length-rebuild :
      (kept originals : List (Metric V F))
      → length originals ≤ length (rebuild num ex kept originals)
  unfolding rebuild
  length-rebuild [] originals = omega arith
  length-rebuild (m ∷ ms) [] = omega arith
  length-rebuild (m ∷ ms) (o ∷ os) = omega (arith, length-rebuild ms os)

  -- A scope has at least as many metrics after the transformations as before, whatever they are to remove.
  pub length-transform_scope :
      (t : Transformer F P) (originals : List (Metric V F))
      → length originals ≤ length (transform_scope num ex t originals).0
  unfolding transform_scope
  length-transform_scope t originals = length-rebuild _ originals
