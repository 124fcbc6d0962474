-- ===== src/Core/Errors.antt =====
-- backend/src/app/core/errors.py: the AppError hierarchy and the problem-details response.
use honest_agent.Prelude.{ℕ, ◌++◌}
use honest_agent.Py.Str.{Str, codes}
use honest_agent.Py.Value.{Value, int, str, obj, end, field, pos}

-- The class of an `AppError`; `app_error` is the base class itself.
pub data ErrorClass : Type 0 where
  app_error bad_request_error authentication_error rate_limited_error : ErrorClass
  tenant_access_error payload_too_large_error not_found_error : ErrorClass
  ingestion_error guardrail_refusal : ErrorClass

pub record AppError : Type 0 where
  pub kind : ErrorClass
  pub detail : Str

abbrev pub problem_base : Str
problem_base = codes "https://github.com/lotodee/honest-agent/problems"

unfoldable pub status_code : ErrorClass → ℕ
status_code app_error = 500
status_code bad_request_error = 400
status_code authentication_error = 401
status_code rate_limited_error = 429
status_code tenant_access_error = 403
status_code payload_too_large_error = 413
status_code not_found_error = 404
status_code ingestion_error = 422
status_code guardrail_refusal = 422

unfoldable pub title : ErrorClass → Str
title app_error = codes "Internal Server Error"
title bad_request_error = codes "Bad Request"
title authentication_error = codes "Authentication Failed"
title rate_limited_error = codes "Too Many Requests"
title tenant_access_error = codes "Tenant Access Denied"
title payload_too_large_error = codes "Payload Too Large"
title not_found_error = codes "Resource Not Found"
title ingestion_error = codes "Ingestion Failed"
title guardrail_refusal = codes "Guardrail Refusal"

unfoldable pub problem_type : ErrorClass → Str
problem_type app_error = codes "about:blank"
problem_type bad_request_error = problem_base ++ codes "/bad-request"
problem_type authentication_error = problem_base ++ codes "/authentication"
problem_type rate_limited_error = problem_base ++ codes "/rate-limited"
problem_type tenant_access_error = problem_base ++ codes "/tenant-access"
problem_type payload_too_large_error = problem_base ++ codes "/payload-too-large"
problem_type not_found_error = problem_base ++ codes "/not-found"
problem_type ingestion_error = problem_base ++ codes "/ingestion"
problem_type guardrail_refusal = problem_base ++ codes "/guardrail-refusal"

pub record ProblemDetail : Type 0 where
  pub type : Str
  pub title : Str
  pub status : ℕ
  pub detail : Str
  pub instance_path : Str

-- A response with a JSON body.
pub record Response : Type 0 where
  pub status_code : ℕ
  pub media_type : Str
  pub content : Value

-- `problem.model_dump()`.
unfoldable pub model_dump : ProblemDetail → Value
model_dump p = obj (
    field (codes "type") (str p.type) (
      field (codes "title") (str p.title) (
        field (codes "status") (int (pos p.status)) (
          field (codes "detail") (str p.detail)
            (field (codes "instance") (str p.instance_path) end)))))

unfoldable pub problem_response : ℕ → Str → Str → Str → Str → Response
unfolding model_dump
problem_response status title type detail instance_path =
    let problem : ProblemDetail = record {
      type = type;
      title = title;
      status = status;
      detail = detail;
      instance_path = instance_path;
    } in
    record {
      status_code = status;
      media_type = codes "application/problem+json";
      content = model_dump problem;
    }

unfoldable pub app_error_response : AppError → Str → Response
unfolding problem_response status_code title problem_type
app_error_response error instance_path =
    problem_response (status_code error.kind) (title error.kind) (problem_type error.kind)
      error.detail instance_path
