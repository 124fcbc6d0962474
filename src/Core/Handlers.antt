-- ===== src/Core/Handlers.antt =====
-- backend/src/app/core/errors.py: `register_error_handlers`. A handler of a route that raises an
-- `AppError` answers with its problem response; any other exception goes on to the server.
use honest_agent.Prelude.{ℕ}
use honest_agent.Py.Str.{Str}
use honest_agent.Py.Exec.{Exception, app, Result, ok, raised}
use honest_agent.Core.Errors.{Response, app_error_response, status_code}

unfoldable pub handle_app_error : Str → Exception → Result Response
handle_app_error path (app error) = ok (app_error_response error path)
handle_app_error path e = raised e

-- A route's result under the handler; `render` is how the framework serializes what it returns.
unfoldable pub handled {ℓ} : {A : Type ℓ} → Str → (A → Response) → Result A → Result Response
unfolding handle_app_error
handled path render (ok a) = ok (render a)
handled path render (raised e) = handle_app_error path e

-- The status that a client sees for an exception: the server answers 500 to what no handler takes.
unfoldable pub answered_status : Exception → ℕ
unfolding status_code
answered_status (app error) = status_code error.kind
answered_status e = 500
