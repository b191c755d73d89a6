-- ===== src/Errors.antt =====
-- errors/api-error.ts and errors/error.filter.ts: the error envelope of every answer.
use upstat.Common.{ℕ, Option, some, none, String, Failure, api, other, if◌then◌else◌, ◌==◌, nat_eq}

abbrev pub api_error : ℕ → String → String → Option ℕ → Failure
api_error status code message retry_after =
    api (record { status = status; code = code; message = message; retry_after = retry_after })

-- `unavailable(retryAfter)`; the code's default is 5.
abbrev pub unavailable : ℕ → Failure
unavailable retry_after =
    api_error 503 "unavailable" "Ingest is temporarily unavailable; retry" (some retry_after)

-- What the filter is handed: an ApiError, another HttpException of the framework, or any error.
pub data Exception : Type 0 where
  failure : Failure → Exception
  http : ℕ → String → Exception

pub record Answer : Type 0 where
  pub status : ℕ
  pub code : String
  pub message : String
  pub retry_after_header : Option ℕ

-- `if (retryAfter) response.setHeader(...)`: 0 sets no header.
abbrev retry_header : Option ℕ → Option ℕ
retry_header none = none
retry_header (some n) = if n == 0 then none else some n

unfoldable pub catch : Exception → Answer
catch (failure (api e)) = record {
  status = e.status;
  code = e.code;
  message = e.message;
  retry_after_header = retry_header e.retry_after;
}
catch (http status message) = record {
  status = status;
  code = if status == 404 then "not_found" else "bad_request";
  message = message;
  retry_after_header = none;
}
catch (failure (other message)) = record {
  status = 500;
  code = "internal";
  message = "Something went wrong";
  retry_after_header = none;
}
