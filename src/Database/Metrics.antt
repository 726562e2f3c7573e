-- ===== src/Database/Metrics.antt =====
-- The checks of `GetMetricByType` are enough for what follows them.
use husky_ci.Base.{
  ℤ, ◌≡◌, refl, String, ◌==◌, true, false, not, Option, none, some, is_some, List, [], ◌∷◌,
  is_empty, Bool-cases, inl, inr, eq_iff, if-elim,
}
use husky_ci.Base.Lists.{All}
use husky_ci.Base.TextLaws.{flipped}
use husky_ci.Base.Reply.{Reply}
use husky_ci.Input.{slice_contains}
use husky_ci.Database.Stats.{
  QueryParams, params_of, valid_metric, valid_time_range, valid_params, last_value, time_filter,
  checked_range, and_then, validate_params, aggregated, get_metric,
}

-- A time range is valid exactly when there are stages for it.
pub valid_time_range-time_filter :
    (range : String) → valid_time_range range ≡ is_some (time_filter range)
unfolding valid_time_range time_filter slice_contains
valid_time_range-time_filter range = elim (Bool-cases (range == "today")) [
  | inl same ↦ rw ((eq_iff range "today").0 same) refl
  | inr not_today ↦ elim (Bool-cases (range == "yesterday")) [
    | inl same ↦ rw ((eq_iff range "yesterday").0 same) refl
    | inr not_yesterday ↦ elim (Bool-cases (range == "last7days")) [
      | inl same ↦ rw ((eq_iff range "last7days").0 same) refl
      | inr not_week ↦ elim (Bool-cases (range == "last30days")) [
        | inl same ↦ rw ((eq_iff range "last30days").0 same) refl
        | inr not_month ↦
            rw
              (
                not_today,
                not_yesterday,
                not_week,
                not_month,
                flipped range "today" not_today,
                flipped range "yesterday" not_yesterday,
                flipped range "last7days" not_week,
                flipped range "last30days" not_month,
              )
              refl
      ]
    ]
  ]
]

abbrev pub HasValue : String × List String → Type 0
HasValue param = is_empty param.1 ≡ false

last_value-some : (v : String) (vs : List String) → is_some (last_value (v ∷ vs)) ≡ true
unfolding last_value
last_value-some v [] = refl
last_value-some v (w ∷ vs) = last_value-some w vs

checked_range-some : (o : Option String) → is_some o ≡ true → is_some (checked_range o) ≡ true
checked_range-some none h = cc
checked_range-some (some range) h =
    if-elim (λ (o : Option (Option String)). is_some o ≡ true) (valid_time_range range) (some none)
      (some (some "invalid time_range query string param")) (λ valid. refl) (λ invalid. refl)

and_then-some :
    (o next : Option (Option String))
    → is_some o ≡ true
    → is_some next ≡ true
    → is_some (and_then o next) ≡ true
and_then-some none next h k = cc
and_then-some (some none) next h k = k
and_then-some (some (some err)) next h k = refl

value-some : (vs : List String) → is_empty vs ≡ false → is_some (last_value vs) ≡ true
value-some [] h = cc
value-some (v ∷ vs) h = last_value-some v vs

validate_params-some :
    (params : QueryParams) → All HasValue params → is_some (validate_params params) ≡ true
unfolding validate_params
validate_params-some [] h = refl
validate_params-some ((k, vs) ∷ params) (filled, h) =
    if-elim (λ (o : Option (Option String)). is_some o ≡ true) (k == "time_range") _
      (validate_params params)
      (λ range.
        and_then-some (checked_range (last_value vs)) (validate_params params)
          (checked_range-some (last_value vs) (value-some vs filled))
          (validate_params-some params h))
      (λ other. validate_params-some params h)

valid_params-All :
    (P : String × List String → Type 0) (metric : String) (params : QueryParams)
    → All P params
    → All P (valid_params metric params)
unfolding valid_params
valid_params-All P metric [] h = tt
valid_params-All P metric ((k, vs) ∷ params) (here, h) =
    if-elim (All P) (slice_contains (params_of metric) k) ((k, vs) ∷ valid_params metric params)
      (valid_params metric params) (λ valid. (here, valid_params-All P metric params h))
      (λ other. valid_params-All P metric params h)

aggregated-some :
    {Stage : Type 0} (in_days : ℤ → ℤ → Stage) (base : String → List Stage) (metric : String)
    (params : QueryParams) (o : Option (Option String))
    → is_some o ≡ true
    → is_some (aggregated in_days base metric params o) ≡ true
aggregated-some in_days base metric params none h = cc
aggregated-some in_days base metric params (some none) h = refl
aggregated-some in_days base metric params (some (some err)) h = refl

-- `GetMetricByType` does not panic on a query string in which every parameter has a value, whatever
-- the metric and the values are: the value that it indexes is there.
pub get_metric-some :
    {Stage : Type 0} (in_days : ℤ → ℤ → Stage) (base : String → List Stage) (metric : String)
    (params : QueryParams)
    → All HasValue params
    → is_some (get_metric in_days base metric params) ≡ true
unfolding get_metric
get_metric-some {Stage} in_days base metric params h =
    if-elim (λ (o : Option (Reply (List Stage))). is_some o ≡ true) (not (valid_metric metric)) _ _
      (λ unknown. refl)
      (λ known.
        aggregated-some in_days base metric params (validate_params (valid_params metric params)) (
          validate_params-some (valid_params metric params)
            (valid_params-All HasValue metric params h)))
