-- ===== src/Groww/Errors.antt =====
-- src/pkg/groww/errors.go: the errors of the client. What `fmt.Errorf` wraps is a text.
use navier_stocks.Base.{ℕ, Bool, true, false, Option, none, some, String, leb, ◌==◌, if◌then◌else◌}

-- The sentinel errors that an error of the client can wrap.
pub data Sentinel : Type 0 where
  auth_expired rate_limited order_rejected insufficient_margin invalid_symbol : Sentinel

-- `APIError`
pub record ApiError : Type 0 where
  pub http_status : ℕ
  pub code : String
  pub message : String

-- The ways in which `refreshToken` fails.
pub data RefreshError : Type 0 where
  not_sent bad_body : String → RefreshError
  bad_status : ℕ → RefreshError
  empty_token : RefreshError

-- The errors of `do` and `decodeResponse`.
pub data GrowwError : Type 0 where
  not_marshalled not_built not_sent not_closed not_read not_decoded payload_not_decoded :
      String → GrowwError
  refresh_failed : RefreshError → GrowwError
  api : ApiError → GrowwError

-- `(*APIError).Unwrap`
unfoldable pub unwrap : ApiError → Option Sentinel
unwrap e =
    if leb 500 e.http_status
    then none
    else if e.http_status == 429
    then some rate_limited
    else if e.http_status == 401
    then some auth_expired
    else none

-- The sentinel that `errors.Is` finds in the chain of an error.
unfoldable pub sentinel_of : GrowwError → Option Sentinel
unfolding unwrap
sentinel_of (api e) = unwrap e
sentinel_of (refresh_failed e) = some auth_expired
sentinel_of _ = none

abbrev pub is_rate_sentinel : Option Sentinel → Bool
is_rate_sentinel (some rate_limited) = true
is_rate_sentinel _ = false

abbrev pub is_auth_sentinel : Option Sentinel → Bool
is_auth_sentinel (some auth_expired) = true
is_auth_sentinel _ = false

-- `IsRateLimited`, of an error that is not nil
unfoldable pub is_rate_limited : GrowwError → Bool
unfolding sentinel_of
is_rate_limited e = is_rate_sentinel (sentinel_of e)

-- `IsAuthExpired`, of an error that is not nil
unfoldable pub is_auth_expired : GrowwError → Bool
unfolding sentinel_of
is_auth_expired e = is_auth_sentinel (sentinel_of e)
