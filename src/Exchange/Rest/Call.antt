-- ===== src/Exchange/Rest/Call.antt =====
-- exchange/okx/rest_client.py: one request and what becomes of its response. The transport, with
-- the headers and the signature, is a parameter.
use okx_hft_executor.Prelude.{
  String, ◌<>◌, Bool, false, ◌||◌, Option, none, some, List, str_eq, if◌then◌else◌, is_empty,
}
use okx_hft_executor.Exchange.Errors.{runtime_error, other_exception, Result, ok, raise}
use okx_hft_executor.Exchange.Rest.Json.{
  Json, text, array, object, nil, cons, Fields, Library, ◌>>=◌, py_str, is_true, get_field, or_null,
  first_of,
}

-- `method`, `path`, `params`, `body`, `auth`
pub record Call : Type 0 where
  pub method : String
  pub path : String
  pub params : List (String × String)
  pub body : Fields
  pub auth : Bool

-- How the transport ends: `TimeoutError` and `URLError` with their texts, `HTTPError` with the text
-- of its code and the first 200 characters of its body, a body that is no JSON, or a payload.
pub data Answer : Type 0 where
  timed_out : String → Answer
  http_error : String → String → Answer
  url_error : String → Answer
  no_json : String → Answer
  payload : Json → Answer

module _ (lib : Library) where
  abbrev pub request_path : Call → String
  request_path c = c.path <> (if is_empty c.params then "" else "?" <> lib.urlencode c.params)

  abbrev sub_error : Json → Json → String
  sub_error s_code s_msg =
      if is_true s_code || is_true s_msg
      then " sCode=" <> (py_str lib s_code <> (" sMsg=" <> py_str lib s_msg))
      else ""

  -- `_extract_sub_error`
  unfoldable pub extract_sub_error : Option Json → String
  unfolding get_field
  extract_sub_error (some (array (cons (object fs) vs))) =
      sub_error (or_null (get_field "sCode" fs)) (or_null (get_field "sMsg" fs))
  extract_sub_error _ = ""

  abbrev pub is_ok_code : Option Json → Bool
  is_ok_code (some (text s)) = str_eq s "0"
  is_ok_code _ = false

  abbrev pub api_error : Option Json → Option Json → Option Json → String
  api_error code msg found =
      "OKX API error: code="
      <> (py_str lib (or_null code)
          <> (" msg=" <> (py_str lib (or_null msg) <> extract_sub_error found)))

  -- `payload.get("data", [])`
  abbrev data_of : Option Json → Json
  data_of none = array nil
  data_of (some v) = v

  -- `payload`, once it is read: its data, or an error of the API
  unfoldable pub accept : Json → Result Json
  unfolding get_field extract_sub_error
  accept (object fs) =
      if is_ok_code (get_field "code" fs)
      then ok (data_of (get_field "data" fs))
      else raise (
          runtime_error
            (api_error (get_field "code" fs) (get_field "msg" fs) (get_field "data" fs)))
  accept v = raise (other_exception "no attribute 'get'")

  abbrev on_call : String → Call → String → String
  on_call what c rest =
      what <> (" on " <> (c.method <> (" " <> (request_path c <> (": " <> rest)))))

  unfoldable pub settle : Call → Answer → Result Json
  unfolding accept
  settle c (timed_out exc) = raise (runtime_error (on_call "OKX request timeout" c exc))
  settle c (http_error code body) =
      raise (
        runtime_error
          (on_call ("OKX HTTP " <> code) c (if str_eq body "" then "no body" else body)))
  settle c (url_error exc) = raise (runtime_error (on_call "OKX connection error" c exc))
  settle c (no_json exc) = raise (other_exception exc)
  settle c (payload v) = accept v

  -- `_request_sync` without `expect_list`: the first item, or none where that is allowed
  unfoldable pub single : Call → Bool → Json → Result (Option Json)
  unfolding first_of
  single c allow_empty found =
      if is_true found
      then (first_of found >>= λ v. ok (some v))
      else if allow_empty
      then ok none
      else raise
          (runtime_error ("OKX API returned empty data for " <> (c.method <> (" " <> c.path))))
