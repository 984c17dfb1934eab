-- ===== src/Vpp/Cursor.antt =====
-- The cursors of commandment/vpp/vpp.py over the pages of users and of licenses, with the requests
-- that fill them. A cursor is its reply; the client it asks for the next page is an argument.
pub mod Paging
use commandment.Base.{ℕ, String, ◌&&◌, Bool, true, false, Option, none, some, if◌then◌else◌, ◌==◌}
use commandment.Python.Values.{
  Value, null, text, num, flag, Fields, end, field, get_or, put, truthy,
}
use commandment.Python.Exec.{Result, ok, err}
use commandment.Vpp.{Post, Vpp}
use commandment.Vpp.Requests.{call, put_some, is_none, ◌>>=◌}

-- VPPCursor, and VPPLicenseCursor, which adds no field
pub record Cursor : Type 0 where
  pub current : Fields

pub record UserCursor : Type 0 where
  pub cursor : Cursor
  pub includes_retired : Bool

unfoldable pub batch_count : Cursor → Value
unfolding get_or
batch_count c = get_or "batchCount" null c.current

unfoldable pub total : Cursor → Value
unfolding get_or
total c = get_or "totalCount" null c.current

unfoldable pub batch_token : Cursor → Value
batch_token c = get_or "batchToken" null c.current

unfoldable pub since_modified_token : Cursor → Value
since_modified_token c = get_or "sinceModifiedToken" null c.current

-- Only a batch that is not complete takes precedence over the time delta.
abbrev page_token : Value → Value → Fields → Fields
page_token null since body = put_some "sinceModifiedToken" since body
page_token token since body = put "batchToken" token body

unfoldable pub users_body : Vpp → ℕ → Value → Value → Fields
unfolding put
users_body vpp include_retired token since = page_token token since (
    if include_retired == 1
    then field "sToken" vpp.stoken (field "includeRetired" (num 1) end)
    else field "sToken" vpp.stoken end)

-- VPP.users
unfoldable pub users : Vpp → Post → ℕ → Value → Value → Result UserCursor
users vpp post include_retired token since = do
  reply ← call vpp post "getUsersSrvUrl" (users_body vpp include_retired token since)
  ok (record { cursor = record { current = reply }; includes_retired = include_retired == 1 })

-- VPPUserCursor.next
unfoldable pub next_users : Vpp → Post → UserCursor → Result (Option UserCursor)
unfolding users batch_token
next_users vpp post c =
    if is_none (batch_token c.cursor)
    then ok none
    else users vpp post 1 (batch_token c.cursor) null >>= λ next.
        ok (some (record { cursor = next.cursor; includes_retired = c.includes_retired }))

-- request_body[key] = value, if the argument is true of an `if`
abbrev put_truthy : String → Value → Fields → Fields
put_truthy key v body = if truthy v then put key v body else body

-- The arguments of VPP.licenses.
pub record LicenseQuery : Type 0 where
  pub adam_id : Value
  pub pricing_param : Value
  pub assigned_only : Bool
  pub token : Value
  pub since : Value

abbrev licenses_delta : Vpp → LicenseQuery → Fields
licenses_delta vpp q = put_truthy "sinceModifiedToken" q.since (
    put_truthy "batchToken" q.token (
      if q.assigned_only
      then field "sToken" vpp.stoken (field "assignedOnly" (flag true) end)
      else field "sToken" vpp.stoken end))

unfoldable pub licenses_body : Vpp → LicenseQuery → Fields
licenses_body vpp q =
    if is_none q.token && is_none q.since
    then put_some "pricingParam" q.pricing_param
        (put_some "adamId" q.adam_id (licenses_delta vpp q))
    else licenses_delta vpp q

-- VPP.licenses
unfoldable pub licenses : Vpp → Post → LicenseQuery → Result Cursor
licenses vpp post q = do
  reply ← call vpp post "getLicensesSrvUrl" (licenses_body vpp q)
  ok (record { current = reply })

-- licenses(batch_token=token)
abbrev pub batch : Value → LicenseQuery
batch token = record {
  adam_id = null;
  pricing_param = null;
  assigned_only = false;
  token = token;
  since = null;
}

-- VPPLicenseCursor.next: the same cursor, on its next page
unfoldable pub next_licenses : Vpp → Post → Cursor → Result (Option Cursor)
unfolding licenses batch_token
next_licenses vpp post c =
    if is_none (batch_token c)
    then ok none
    else licenses vpp post (batch (batch_token c)) >>= λ next. ok (some next)
