-- ===== src/Dep.antt =====
-- commandment/dep/dep.py: the client of the Device Enrollment Programme service. The service, its
-- OAuth session and the parser of HTTP dates are arguments.
pub mod Client
pub mod Cursor
pub mod Account
pub mod Rows
pub mod Sync
pub mod Thread
use commandment.Base.{ℕ, String, Option, List}
use commandment.Python.Values.{Value, Fields}
use commandment.Python.Exec.{Result}

pub record Request : Type 0 where
  pub method : String
  pub path : String
  pub json : Value

-- A header that is missing is none; Retry-After is kept as its characters. `text` is the body with
-- quotes and line ends stripped, as DEPServiceError keeps it.
pub record Response : Type 0 where
  pub status_code : ℕ
  pub session_header : Option String
  pub retry_after_header : Option (List ℕ)
  pub json : Fields
  pub text : String

-- What the requests library answers or raises, and the clock.
pub record Service : Type 0 where
  -- GET /session under the OAuth credentials
  pub get_session : Result Response
  -- a prepared request under a session token, or under none
  pub send : Option String → Request → Result Response
  -- datetime(*parsedate(text)[:6]), none where parsedate returns None
  pub parsedate : List ℕ → Option ℕ
  pub now : ℕ

-- The fields of DEP that change, and the expiry of its access token.
pub record Dep : Type 0 where
  pub session_token : Option String
  pub access_token_expiry : Option ℕ
  pub retry_after : Option ℕ
