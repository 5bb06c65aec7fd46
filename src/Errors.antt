-- ===== src/Errors.antt =====
-- errors.go: the error types with their texts. An error that is wrapped stands as its text.
use gokalshi.Base.{ℤ, pos, ◌++◌, if◌then◌else◌, is_empty, Text, codes}
use gokalshi.Query.{itoa}
use gokalshi.Client.Errors.{ApiError}

unfoldable pub api_error_text : ApiError → Text
api_error_text e =
    let start =
      codes "kalshi API error "
      ++ itoa (pos e.status_code)
      ++ codes ": "
      ++ e.error_method
      ++ codes " "
      ++ e.error_path
      ++ codes ": " in
    if is_empty e.message
    then start ++ e.error_body
    else start ++ e.message ++ codes " (code=" ++ e.code ++ codes ")"

pub record RateLimitError : Type 0 where
  pub limited_method : Text
  pub limited_path : Text
  pub retries : ℤ

unfoldable pub rate_limit_error_text : RateLimitError → Text
rate_limit_error_text e =
    codes "kalshi rate limited: "
    ++ e.limited_method
    ++ codes " "
    ++ e.limited_path
    ++ codes " after "
    ++ itoa e.retries
    ++ codes " retries"

pub record AuthError : Type 0 where
  pub auth_op : Text
  pub auth_err : Text

unfoldable pub auth_error_text : AuthError → Text
auth_error_text e = codes "kalshi auth error (" ++ e.auth_op ++ codes "): " ++ e.auth_err

pub record WebSocketError : Type 0 where
  pub socket_op : Text
  pub socket_err : Text

unfoldable pub web_socket_error_text : WebSocketError → Text
web_socket_error_text e =
    codes "kalshi websocket error (" ++ e.socket_op ++ codes "): " ++ e.socket_err

pub record SequenceGapError : Type 0 where
  pub channel : Text
  pub expected : ℤ
  pub got : ℤ

unfoldable pub sequence_gap_error_text : SequenceGapError → Text
sequence_gap_error_text e =
    codes "kalshi sequence gap on "
    ++ e.channel
    ++ codes ": expected "
    ++ itoa e.expected
    ++ codes ", got "
    ++ itoa e.got
