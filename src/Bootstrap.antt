-- ===== src/Bootstrap.antt =====
-- app/bootstrap.py: which client of the exchange a strategy is given, and when there is none. Of the
-- settings of config/settings.py the fields that decide this are kept; `__init__` of the client of
-- exchange/okx/rest_client.py raises without credentials.
use okx_hft_executor.Prelude.{
  String, Bool, true, false, not, ◌||◌, ◌&&◌, Option, none, some, if◌then◌else◌, str_eq,
}
use okx_hft_executor.Exchange.Errors.{other_exception, Result, ok, raise}

pub data RuntimeMode : Type 0 where
  live_mode paper_mode replay_mode : RuntimeMode

pub record Settings : Type 0 where
  pub runtime_mode : RuntimeMode
  pub safe_mode : Bool
  pub enable_real_okx_in_paper : Bool
  pub okx_api_key : Option String
  pub okx_api_secret : Option String
  pub okx_api_passphrase : Option String

-- `OkxStubExchangeClient`, `OkxRestClient`
pub data ClientKind : Type 0 where
  stub_client rest_client : ClientKind

abbrev has_secret : Option String → Bool
has_secret none = false
has_secret (some secret) = not (str_eq secret "")

abbrev is_replay : RuntimeMode → Bool
is_replay replay_mode = true
is_replay _ = false

abbrev is_paper : RuntimeMode → Bool
is_paper paper_mode = true
is_paper _ = false

abbrev use_stub : Settings → Bool
use_stub s =
    is_replay s.runtime_mode
    || s.safe_mode
    || is_paper s.runtime_mode && not s.enable_real_okx_in_paper

-- `OkxRestClient.__init__`
abbrev new_rest_client : Settings → Result ClientKind
new_rest_client s =
    if not (has_secret s.okx_api_key)
      || not (has_secret s.okx_api_secret)
      || not (has_secret s.okx_api_passphrase)
    then raise (other_exception "OKX credentials are required for real demo trading.")
    else ok rest_client

unfoldable pub build_executor_context : Settings → Result ClientKind
build_executor_context s = if use_stub s then ok stub_client else new_rest_client s
