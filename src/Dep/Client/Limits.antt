-- ===== src/Dep/Client/Limits.antt =====
-- What a rate limit and an expired session token do to the client.
use commandment.Base.{
  ℕ, String, ◌≡◌, refl, ap, Bool, true, false, Option, none, some, List, [], ◌∷◌, All, arith,
  Bool-cases, inl, inr, ◌∙◌, if◌then◌else◌,
}
use commandment.Python.Values.{Fields}
use commandment.Python.Exec.{
  client_error, type_error, attribute_error, Result, ok, err, lift, bind-ok, lift, bind-ok,
}
use commandment.Dep.{Request, Response, Service, Dep}
use commandment.Dep.Client.{
  is_digit, is_delta, is_past, with_token, response_hook, send, call, json_of,
}

-- Calls one after the other, each with the service and the clock of its time.
unfoldable pub calls : List (Service × Request) → Dep → List (Result Fields) × Dep
calls [] dep = ([], dep)
calls ((service, request) ∷ rest) dep =
    let (reply, dep') = call service request dep in
    let (replies, last) = calls rest dep' in (reply ∷ replies, last)

abbrev pub IsRefused : Result Fields → Type 0
IsRefused (err e) = Unit
IsRefused (ok d) = ⊥

-- A client that the service has asked to wait.
abbrev pub limited : Option String → Option ℕ → ℕ → Dep
limited token expiry t = record {
  session_token = token;
  access_token_expiry = expiry;
  retry_after = some t;
}

-- A client that may talk, under a session token.
abbrev pub talking : String → Option ℕ → Dep
talking token expiry = record {
  session_token = some token;
  access_token_expiry = expiry;
  retry_after = none;
}

send-limited :
    (service : Service) (request : Request) (token : Option String) (expiry : Option ℕ) (t : ℕ)
    → send service request (limited token expiry t)
      ≡ ((if is_past service.now expiry then err client_error else ok none), limited token expiry t)
unfolding send
send-limited service request token expiry t = elim (Bool-cases (is_past service.now expiry)) [
  | inl past ↦ rw past refl
  | inr valid ↦ rw valid refl
]

-- What `call` makes of the end of `send`.
abbrev json_after : Result (Option Response) × Dep → Result Fields × Dep
json_after (ok r, dep) = (json_of r, dep)
json_after (err e, dep) = (err e, dep)

json_after-limited :
    (past : Bool) (dep : Dep)
    → json_after ((if past then err client_error else ok none), dep)
      ≡ (err (if past then client_error else attribute_error), dep)
json_after-limited true dep = refl
json_after-limited false dep = refl

call-json_after :
    (service : Service) (request : Request) (dep : Dep) (end : Result (Option Response) × Dep)
    → send service request dep ≡ end
    → call service request dep ≡ json_after end
unfolding call
call-json_after service request dep (ok r, dep') h =
    bind-ok (send service request) (λ r. lift (json_of r)) dep dep' r h
call-json_after service request dep (err e, dep') h =
    ap
      (λ (x : Result (Option Response) × Dep). elim x.0 [
        | ok b ↦ (json_of b, x.1)
        | err c ↦ (err c, x.1)
      ])
      h

call-limited :
    (service : Service) (request : Request) (token : Option String) (expiry : Option ℕ) (t : ℕ)
    → call service request (limited token expiry t) ≡ (
      err (if is_past service.now expiry then client_error else attribute_error),
      limited token expiry t,
    )
call-limited service request token expiry t =
    call-json_after service request (limited token expiry t) _
      (send-limited service request token expiry t)
    ∙ json_after-limited (is_past service.now expiry) (limited token expiry t)

-- Once the client holds a time from Retry-After, every later call fails, whatever the service and
-- the clock are by then, and the client keeps that time.
pub calls-limited :
    (requests : List (Service × Request)) (token : Option String) (expiry : Option ℕ) (t : ℕ)
    → let (replies, last) = calls requests (limited token expiry t) in
      All IsRefused replies × (last ≡ limited token expiry t)
unfolding calls
calls-limited [] token expiry t = (tt, refl)
calls-limited ((service, request) ∷ rest) token expiry t =
    let (refused, same) = calls-limited rest token expiry t in
    rw (call-limited service request token expiry t) ((tt, refused), same)

is_delta-digits : (cs : List ℕ) → All (λ c. is_digit c ≡ true) cs → is_delta cs ≡ false
unfolding is_delta
is_delta-digits [] h = refl
is_delta-digits (c ∷ []) h = refl
is_delta-digits (c ∷ d ∷ ds) h = ground arith

-- A response whose Retry-After header holds digits only, which the parser of dates does not read,
-- makes the hook raise a TypeError; a new session token is kept, and no limit is.
pub response_hook-seconds :
    (service : Service) (r : Response) (dep : Dep) (after : List ℕ)
    → r.retry_after_header ≡ some after
    → All (λ c. is_digit c ≡ true) after
    → service.parsedate after ≡ none
    → response_hook service r dep ≡ (err type_error, with_token r.session_header dep)
unfolding response_hook
response_hook-seconds service r dep after header digits no_date =
    rw (header, is_delta-digits after digits, no_date) refl
