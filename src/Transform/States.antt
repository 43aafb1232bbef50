-- ===== src/Transform/States.antt =====
-- nrtransform: the state that deltas are calculated from.
use nrdot_host.Common.{
  ◌≡◌, refl, ap, ◌∙◌, List, [], ◌∷◌, ◌++◌, true, Option, none, some, Str, Str-discrete, ite,
}
use nrdot_host.Common.Dict.{lookup-insert}
use nrdot_host.Transform.Metric.{Numbers, NumberDataPoint, double, Temporality, sum, Body, Metric}
use nrdot_host.Transform.Calculator.{
  StateStore, DataPointState, generate_data_point_key, get, set, state_of, delta_value, delta_from,
  delta_metric, calculate_sum_delta, calculate_delta,
}

module _ {V F : Type 0} (num : Numbers V F) where
  -- The last data point with a key, else what was there before.
  abbrev last_state :
      Str → List (NumberDataPoint V F) → Option (DataPointState F) → Option (DataPointState F)
  last_state key [] before = before
  last_state key (dp ∷ dps) before = last_state key dps (
      ite (Str-discrete key (generate_data_point_key num dp.attributes)) (some (state_of num dp))
        before)

  delta_from-set :
      (dp : NumberDataPoint V F) (prev : Option (DataPointState F)) (store : StateStore F)
      → (delta_from num dp prev store).1 ≡ set num dp store
  delta_from-set dp none store = refl
  delta_from-set dp (some prev) store = refl

  -- After the deltas of a metric the store has the last value of each key.
  pub get-calculate_sum_delta :
      (key : Str) (dps : List (NumberDataPoint V F)) (store : StateStore F)
      → get num key (calculate_sum_delta num dps store).1 ≡ last_state key dps (get num key store)
  unfolding calculate_sum_delta
  get-calculate_sum_delta key [] store = refl
  get-calculate_sum_delta key (dp ∷ dps) store =
      let here = generate_data_point_key num dp.attributes in
      let first : StateStore F = (delta_from num dp (get num here store) store).1 in
      get-calculate_sum_delta key dps first
      ∙ ap (last_state key dps) (
          ap (get num key) (delta_from-set dp (get num here store) store)
          ∙ lookup-insert Str-discrete key here (state_of num dp) store)

  abbrev pub sum_points : Option (Metric V F) → List (NumberDataPoint V F)
  sum_points none = []
  sum_points (some m) = elim m.body [ sum _ _ dps ↦ dps | _ ↦ [] ]

  -- The point that a delta to a previous state gives.
  abbrev pub delta_point : NumberDataPoint V F → DataPointState F → NumberDataPoint V F
  delta_point dp prev = record {
    attributes = dp.attributes;
    timestamp = dp.timestamp;
    start_timestamp = prev.timestamp;
    value = double (delta_value num dp prev);
  }

  -- The state does not know its metric: the delta of the first point of a metric is taken to the last
  -- point with the same labels of any other metric whose deltas were calculated just before.
  pub calculate_delta_shared :
      (a b : Metric V F) (ta tb : Temporality) (dps rest : List (NumberDataPoint V F))
      (dp : NumberDataPoint V F) (prev : DataPointState F) (out_a out_b : Str)
      (store : StateStore F)
      → a.body ≡ sum true ta dps
      → b.body ≡ sum true tb (dp ∷ rest)
      → last_state
          (generate_data_point_key num dp.attributes)
          dps
          (get num (generate_data_point_key num dp.attributes) store)
        ≡ some prev
      → (others : List (NumberDataPoint V F)) × (sum_points
            (calculate_delta num b out_b (calculate_delta num a out_a store).1).0
          ≡ delta_point dp prev ∷ others)
  unfolding calculate_delta calculate_sum_delta
  calculate_delta_shared a b ta tb dps rest dp prev out_a out_b store ea eb last =
      let after : StateStore F = (calculate_sum_delta num dps store).1 in
      let stored : (calculate_delta num a out_a store).1 ≡ after = ap (state_after a out_a) ea in
      let found : get num (generate_data_point_key num dp.attributes) after ≡ some prev =
        get-calculate_sum_delta (generate_data_point_key num dp.attributes) dps store ∙ last in
      (
        _,
        ap (λ s. sum_points (calculate_delta num b out_b s).0) stored
            ∙ ap (λ body. sum_points (delta_metric num b out_b body after).0) eb
            ∙ ap
                (λ o.
                  (delta_from num dp o after).0
                  ++ (calculate_sum_delta num rest (delta_from num dp o after).1).0)
                found,
      )
    where
      state_after : Metric V F → Str → Body V F → StateStore F
      state_after m out body = (delta_metric num m out body store).1
