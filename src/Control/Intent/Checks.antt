-- ===== src/Control/Intent/Checks.antt =====
-- The checks on requests for connect intents, control-api/src/main.rs.
use cll.Text.{is_blank, trim, bytes, text_eq, Text}
use cll.Control.Intent.{
  per_session_route, to_connect_intent_request, BusinessConnectIntentRequest, ConnectIntentRequest,
}
use cll.Base.{leb, none, ltb, false, not, ◌==◌, some, ◌||◌, Bool, ℕ, Option}
use cll.Node.Platform.{Platform}
use cll.Base.Outcome.{bail_if, ◌>>=◌, ◌>>◌, ok, Result}
use cll.Control.Error.{
  entitlement_expired, invalid_quality, device_not_verified, invalid_region,
  entitlement_not_verified, invalid_game, risk_blocked, forbidden, invalid_device,
  invalid_business_field, invalid_risk_level, invalid_user, bad_request, AppError,
}
use cll.Node.RoutePolicy.{unwrap_or, is_some_and}
use cll.Text.Chars.{count_chars}

unfoldable pub known_quality : Text → Bool
known_quality quality =
    text_eq quality (bytes "fast")
    || (text_eq quality (bytes "normal") || text_eq quality (bytes "slow"))

unfoldable pub validate_connect_intent_request : ConnectIntentRequest → Result AppError (Unit {0})
unfolding known_quality
validate_connect_intent_request request = do
  bail_if (request.user_id == 0) (bad_request invalid_user)
  bail_if (is_blank request.device_id) (bad_request invalid_device)
  bail_if (request.game_id == 0) (bad_request invalid_game)
  bail_if (is_some_and request.region_id (λ region_id. region_id == 0)) (bad_request invalid_region)
  bail_if (is_some_and request.bandwidth_quality (λ quality. not (known_quality quality)))
      (bad_request invalid_quality)

unfoldable pub validate_optional_business_text : Option Text → ℕ → Result AppError (Unit {0})
validate_optional_business_text value max_chars = do
  bail_if (is_some_and value is_blank) (bad_request invalid_business_field)
  bail_if (is_some_and value (λ text. ltb max_chars (count_chars text)))
      (bad_request invalid_business_field)

unfoldable pub known_risk_level : Text → Bool
known_risk_level level =
    text_eq level (bytes "low")
    || (text_eq level (bytes "normal")
        || (text_eq level (bytes "medium")
            || (text_eq level (bytes "high") || text_eq level (bytes "blocked"))))

unfoldable pub check_risk_level : Option Text → Result AppError (Unit {0})
unfolding known_risk_level
check_risk_level none = ok tt
check_risk_level (some given) = do
  bail_if (not (known_risk_level (trim given))) (bad_request invalid_risk_level)
  bail_if (text_eq (trim given) (bytes "blocked")) (forbidden risk_blocked)

unfoldable pub validate_business_connect_intent_request :
    Platform → ℕ → BusinessConnectIntentRequest → Result AppError (Unit {0})
unfolding validate_optional_business_text check_risk_level
validate_business_connect_intent_request platform now request = do
  validate_connect_intent_request (to_connect_intent_request request)
  validate_optional_business_text request.request_id 128
  validate_optional_business_text request.entitlement_id 128
  validate_optional_business_text request.order_id 128
  validate_optional_business_text request.subscription_id 128
  validate_optional_business_text request.business_session_id 128
  validate_optional_business_text request.client_version 64
  validate_optional_business_text request.risk_level 32
  validate_optional_business_text request.business_trace_id 128
  route ← per_session_route platform request
  bail_if (not (unwrap_or request.entitlement_verified false)) (forbidden entitlement_not_verified)
  bail_if (not (unwrap_or request.device_verified false)) (forbidden device_not_verified)
  bail_if (is_some_and request.entitlement_expires_at (λ expires_at. leb expires_at now))
      (forbidden entitlement_expired)
  check_risk_level request.risk_level
