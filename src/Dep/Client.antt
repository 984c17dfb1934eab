-- ===== src/Dep/Client.antt =====
-- The requests of DEP in commandment/dep/dep.py.
pub mod Limits
use commandment.Base.{
  ℕ, String, Bool, true, false, ◌&&◌, ◌||◌, Option, none, some, List, [], ◌∷◌, ltb, leb, ◌==◌,
  if◌then◌else◌,
}
use commandment.Python.Values.{
  Value, null, text, num, arr, Items, nil, cons, dict, Fields, end, field, get,
}
use commandment.Python.Exec.{
  Exn, client_error, service_error, value_error, type_error, attribute_error, Result, ok, err, Exec,
  pure, raise, lift, gets, modify, ◌>>=◌, ◌>>◌,
}
use commandment.Dep.{Request, Response, Service, Dep}

abbrev pub is_digit : ℕ → Bool
is_digit c = leb 48 c && leb c 57

-- Digits, and then a slash.
abbrev digits_and_slash : List ℕ → Bool
digits_and_slash [] = false
digits_and_slash (c ∷ cs) = (c == 47) || (is_digit c && digits_and_slash cs)

-- re.compile(r"/[0-9]+/").match: the slashes are characters of the pattern
unfoldable pub is_delta : List ℕ → Bool
is_delta [] = false
is_delta (c ∷ []) = false
is_delta (c ∷ d ∷ ds) = (c == 47) && (is_digit d && digits_and_slash ds)

abbrev pub with_token : Option String → Dep → Dep
with_token none dep = dep
with_token (some token) dep = record dep { session_token = some token }

abbrev with_date : Option ℕ → Exec Dep (Unit {0})
with_date none = raise type_error
with_date (some t) = modify (λ dep. record dep { retry_after = some t })

-- atof raises a ValueError at the slashes that the pattern asks for.
abbrev with_retry : Service → Option (List ℕ) → Exec Dep (Unit {0})
with_retry service none = pure tt
with_retry service (some after) =
    if is_delta after then raise value_error else with_date (service.parsedate after)

-- DEP._response_hook
unfoldable pub response_hook : Service → Response → Exec Dep (Unit {0})
unfolding is_delta
response_hook service r = do
  modify (with_token r.session_header)
  with_retry service r.retry_after_header

-- Response.raise_for_status
abbrev pub raise_for_status : Response → Exec Dep (Unit {0})
raise_for_status r =
    if leb 400 r.status_code && ltb r.status_code 600
    then raise (service_error r.status_code r.text)
    else pure tt

abbrev text_of : Option Value → Option String
text_of (some (text t)) = some t
text_of _ = none

-- DEP.fetch_token
unfoldable pub fetch_token : Service → Exec Dep (Unit {0})
unfolding get
fetch_token service = do
  r ← lift service.get_session
  raise_for_status r
  modify (λ dep. record dep { session_token = text_of (get "auth_session_token" r.json) })

abbrev pub ensure_token : Service → Option String → Exec Dep (Unit {0})
ensure_token service none = fetch_token service
ensure_token service (some token) = pure tt

abbrev pub is_past : ℕ → Option ℕ → Bool
is_past now none = false
is_past now (some t) = ltb t now

-- What send does once the client may talk.
unfoldable pub exchange : Service → Request → Exec Dep (Option Response)
unfolding fetch_token response_hook
exchange service request = do
  token ← gets (λ dep. dep.session_token)
  ensure_token service token
  held ← gets (λ dep. dep.session_token)
  r ← lift (service.send held request)
  response_hook service r
  raise_for_status r
  pure (some r)

abbrev pub unless_limited : Service → Request → Option ℕ → Exec Dep (Option Response)
unless_limited service request (some t) = pure none
unless_limited service request none = exchange service request

-- DEP.send
unfoldable pub send : Service → Request → Exec Dep (Option Response)
unfolding exchange
send service request dep =
    if is_past service.now dep.access_token_expiry
    then raise client_error dep
    else unless_limited service request dep.retry_after dep

abbrev pub json_of : Option Response → Result Fields
json_of none = err attribute_error
json_of (some r) = ok r.json

-- res = self.send(request); return res.json()
unfoldable pub call : Service → Request → Exec Dep Fields
unfolding send
call service request = do r ← send service request; lift (json_of r)

abbrev post : String → Fields → Request
post path body = record { method = "POST"; path = path; json = dict body }

unfoldable pub account : Service → Exec Dep Fields
unfolding call
account service = call service (record { method = "GET"; path = "/account"; json = null })

abbrev pub fetch_request : Value → Request
fetch_request cursor = post "/server/devices" (field "limit" (num 100) (field "cursor" cursor end))

abbrev pub sync_request : Value → Request
sync_request cursor = post "/devices/sync" (field "limit" (num 100) (field "cursor" cursor end))

unfoldable pub fetch_devices : Service → Value → Exec Dep Fields
unfolding call
fetch_devices service cursor = call service (fetch_request cursor)

unfoldable pub sync_devices : Service → Value → Exec Dep Fields
unfolding call
sync_devices service cursor = call service (sync_request cursor)

abbrev texts : List String → Items
texts [] = nil
texts (s ∷ ss) = cons (text s) (texts ss)

unfoldable pub device_detail : Service → List String → Exec Dep Fields
unfolding call
device_detail service serial_numbers =
    call service (post "/devices" (field "devices" (arr (texts serial_numbers)) end))

unfoldable pub define_profile : Service → Fields → Exec Dep Fields
unfolding call
define_profile service profile = call service (post "/profile" profile)

unfoldable pub assign_profile : Service → String → List String → Exec Dep Fields
unfolding call
assign_profile service profile_uuid serial_numbers = call service (
    post "/profile/devices"
      (field "profile_uuid" (text profile_uuid) (field "devices" (arr (texts serial_numbers)) end)))

unfoldable pub remove_profile : Service → List String → Exec Dep Fields
unfolding call
remove_profile service serial_numbers = call service (record {
  method = "DELETE";
  path = "/profile/devices";
  json = dict (field "devices" (arr (texts serial_numbers)) end);
})
