-- ===== src/Errors.antt =====
-- Error codes and the error value of the services, go/pkg/yunmao/errors/errors.go.
use yunmao.Base.{ℕ, String}

-- Go's Code is a text: `other` stands for a text that is none of the constants.
pub data Code : Type 0 where
  auth_login_required auth_token_expired auth_forbidden : Code
  user_not_found room_not_found room_offline : Code
  feed_cooldown_not_finished feed_health_limit_hit feed_device_offline : Code
  feed_no_feed_window feed_duplicate_request : Code
  device_unbound device_error_jammed : Code
  media_stream_offline media_profile_unavailable : Code
  pay_order_paid pay_amount_mismatch pay_channel_failed : Code
  risk_action_blocked : Code
  system_rate_limited system_internal system_dependency_unavailable : Code
  other : String → Code

unfoldable pub http_status : Code → ℕ
http_status auth_login_required = 401
http_status auth_token_expired = 401
http_status auth_forbidden = 403
http_status risk_action_blocked = 403
http_status user_not_found = 404
http_status room_not_found = 404
http_status feed_cooldown_not_finished = 409
http_status feed_health_limit_hit = 409
http_status feed_device_offline = 409
http_status feed_no_feed_window = 409
http_status feed_duplicate_request = 409
http_status device_unbound = 409
http_status device_error_jammed = 409
http_status pay_order_paid = 409
http_status pay_amount_mismatch = 409
http_status pay_channel_failed = 409
http_status room_offline = 503
http_status media_stream_offline = 503
http_status media_profile_unavailable = 503
http_status system_dependency_unavailable = 503
http_status system_rate_limited = 429
http_status system_internal = 500
http_status (other _) = 400

pub record AppError : Type 0 where
  pub code : Code
  pub message : String
  pub remediation : String
  pub trace_id : String

unfoldable pub new : Code → String → AppError
new c m = record { code = c; message = m; remediation = ""; trace_id = "" }

-- A Go `error`: an AppError, or another one by its text.
pub data GoError : Type 0 where
  app : AppError → GoError
  plain : String → GoError

-- `AsAppError` of an error that is not nil.
unfoldable pub as_app_error : GoError → AppError
unfolding new
as_app_error (app e) = e
as_app_error (plain text) = new system_internal text
