-- ===== src/Database/Stats.antt =====
-- `GetMetricByType` of api/db/huskystats.go: which queries of the statistics are run. The stages of
-- the pipelines are data for MongoDB, of type `Stage`.
use husky_ci.Base.{
  ℤ, pos, negsuc, String, ◌==◌, Bool, not, Option, none, some, List, [], ◌∷◌, if◌then◌else◌,
}
use husky_ci.Base.Reply.{Reply, found, refused}
use husky_ci.Input.{slice_contains}

-- The parameters of a query string, in the order of a visit.
abbrev pub QueryParams : Type 0
QueryParams = List (String × List String)

abbrev pub metrics : List String
metrics =
    "language" ∷ "container" ∷ "analysis" ∷ "repository" ∷ "author" ∷ "severity" ∷ "historyanalysis"
    ∷ []

-- `statsQueryStringParams[metric]`
abbrev pub params_of : String → List String
params_of metric = if slice_contains metrics metric then "time_range" ∷ [] else []

-- `validMetric`
unfoldable pub valid_metric : String → Bool
unfolding slice_contains
valid_metric metric = slice_contains metrics metric

-- `validTimeRange`
unfoldable pub valid_time_range : String → Bool
unfolding slice_contains
valid_time_range range =
    slice_contains ("today" ∷ "yesterday" ∷ "last7days" ∷ "last30days" ∷ []) range

-- `validQueryStringParams`
unfoldable pub valid_params : String → QueryParams → QueryParams
valid_params metric [] = []
valid_params metric ((k, vs) ∷ params) =
    let rest = valid_params metric params in
    if slice_contains (params_of metric) k then (k, vs) ∷ rest else rest

-- `values[len(values)-1]`; `none` is the panic for a key without a value.
unfoldable pub last_value : List String → Option String
last_value [] = none
last_value (v ∷ []) = some v
last_value (v ∷ w ∷ vs) = last_value (w ∷ vs)

-- The days of `generateTimeFilterStage`, for the ranges of `getTimeFilterStage`.
unfoldable pub time_filter : String → Option (ℤ × ℤ)
time_filter range =
    if range == "today"
    then some (pos 0, pos 0)
    else if range == "yesterday"
    then some (negsuc 0, negsuc 0)
    else if range == "last7days"
    then some (negsuc 5, pos 0)
    else if range == "last30days"
    then some (negsuc 28, pos 0)
    else none

abbrev pub checked_range : Option String → Option (Option String)
checked_range none = none
checked_range (some range) =
    if valid_time_range range
    then some none
    else some (some "invalid time_range query string param")

abbrev pub and_then : Option (Option String) → Option (Option String) → Option (Option String)
and_then (some none) next = next
and_then (some (some err)) next = some (some err)
and_then none next = none

-- `validateParams`; the outer `none` is a panic.
unfoldable pub validate_params : QueryParams → Option (Option String)
unfolding last_value valid_time_range
validate_params [] = some none
validate_params ((k, vs) ∷ params) =
    let rest = validate_params params in
    if k == "time_range" then and_then (checked_range (last_value vs)) rest else rest

module _ {Stage : Type 0} (in_days : ℤ → ℤ → Stage) where
  abbrev pub with_filter : Option (ℤ × ℤ) → List Stage → List Stage
  with_filter none query = query
  with_filter (some (first, last)) query = in_days first last ∷ query

  abbrev pub with_range : Option String → List Stage → List Stage
  with_range none query = query
  with_range (some range) query = with_filter (time_filter range) query

  -- The loop over the parameters; the values have been checked before.
  unfoldable pub stage_loop : List Stage → QueryParams → List Stage
  unfolding last_value time_filter
  stage_loop query [] = query
  stage_loop query ((k, vs) ∷ params) =
      stage_loop (if k == "time_range" then with_range (last_value vs) query else query) params

  abbrev pub aggregated :
      (String → List Stage)
      → String
      → QueryParams
      → Option (Option String)
      → Option (Reply (List Stage))
  aggregated base metric params none = none
  aggregated base metric params (some (some err)) = some (refused err)
  aggregated base metric params (some none) =
      some (found (stage_loop (base metric) (valid_params metric params)))

  -- `GetMetricByType`: the query that is run, an error, or `none` for a panic; `base` is
  -- `statsQueryBase`.
  unfoldable pub get_metric :
      (String → List Stage) → String → QueryParams → Option (Reply (List Stage))
  unfolding valid_metric valid_params validate_params stage_loop
  get_metric base metric params =
      if not (valid_metric metric)
      then some (refused "invalid metric type")
      else aggregated base metric params (validate_params (valid_params metric params))
