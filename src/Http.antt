-- ===== src/Http.antt =====
-- internal/handler/respond.go: the errors that the handlers return, with their status codes, and
-- the two maps into them. `Body` is what the request's body is found to be by the decoder and the
-- validator, which are libraries.
use orchex.Prelude.{ℕ, String}
use orchex.Result.{Result, ok, err}
use orchex.Store.Effects.{StoreError, no_rows}

pub data HttpError : Type 0 where
  bad_request : String → HttpError
  workflow_not_found run_not_found : ℕ → HttpError
  conflict internal_error service_unavailable : String → HttpError

pub status_code : HttpError → ℕ
status_code (bad_request m) = 400
status_code (workflow_not_found i) = 404
status_code (run_not_found i) = 404
status_code (conflict m) = 409
status_code (internal_error m) = 500
status_code (service_unavailable m) = 503

-- `invalid` carries the validator's message.
pub data Body (A : Type 0) : Type 0 where
  unparsable : Body A
  invalid : String → Body A
  bound : A → Body A

abbrev pub bind_json : {A : Type 0} → Body A → Result HttpError A
bind_json unparsable = err (bad_request "invalid json")
bind_json (invalid message) = err (bad_request message)
bind_json (bound a) = ok a

abbrev pub map_query_error : ℕ → String → StoreError → HttpError
map_query_error i fallback no_rows = workflow_not_found i
map_query_error i fallback _ = internal_error fallback
