-- ===== src/Errors.antt =====
-- The technical errors of src/app/errors.py that the modelled services raise, with the HTTP status
-- and the machine-readable code that the error handler sends. `database` is what is no `AppError`:
-- a statement that PostgreSQL refuses, which the router answers with a 500; `unhandled` is any other exception.
use model_lib.Base.{ℕ, String}

pub data AppError : Type 0 where
  unauthorized forbidden subscription_required not_found session_not_found user_not_found conflict
        insufficient_credits validation_error rate_limited service_unavailable
        cloudpayments_webhook_misconfigured cloudpayments_verification_unavailable
        adapty_webhook_misconfigured payload_too_large workspace_not_found message_not_found
        database unhandled :
      AppError

unfoldable pub status_code : AppError → ℕ
status_code unauthorized = 401
status_code forbidden = 403
status_code subscription_required = 403
status_code not_found = 404
status_code session_not_found = 404
status_code user_not_found = 404
status_code conflict = 409
status_code insufficient_credits = 409
status_code validation_error = 422
status_code rate_limited = 429
status_code service_unavailable = 503
status_code cloudpayments_webhook_misconfigured = 500
status_code cloudpayments_verification_unavailable = 500
status_code adapty_webhook_misconfigured = 500
status_code payload_too_large = 413
status_code workspace_not_found = 404
status_code message_not_found = 404
status_code database = 500
status_code unhandled = 500

unfoldable pub error_code : AppError → String
error_code unauthorized = "unauthorized"
error_code forbidden = "forbidden"
error_code subscription_required = "subscription_required"
error_code not_found = "not_found"
error_code session_not_found = "session_not_found"
error_code user_not_found = "user_not_found"
error_code conflict = "conflict"
error_code insufficient_credits = "insufficient_credits"
error_code validation_error = "validation_error"
error_code rate_limited = "rate_limited"
error_code service_unavailable = "service_unavailable"
error_code cloudpayments_webhook_misconfigured = "cloudpayments_webhook_misconfigured"
error_code cloudpayments_verification_unavailable = "cloudpayments_verification_unavailable"
error_code adapty_webhook_misconfigured = "adapty_webhook_misconfigured"
error_code payload_too_large = "payload_too_large"
error_code workspace_not_found = "workspace_not_found"
error_code message_not_found = "message_not_found"
error_code database = "internal_error"
error_code unhandled = "internal_error"
