-- ===== src/Dep/Account.antt =====
-- DEPAccount of commandment/dep/models.py, the session of the DEP thread with its client, and
-- dep_sync_organization of commandment/dep/threads.py. The parser of dates is an argument.
use commandment.Base.{ℕ, Bool, true, false, ◌||◌, Option, some, List, str_eq, if◌then◌else◌}
use commandment.Python.Values.{Value, null, text, Fields, get_or, contains}
use commandment.Python.Exec.{
  value_error, no_result_found, Result, ok, err, Exec, pure, lift, gets, ◌>>=◌, ◌>>◌,
}
use commandment.Store.Rows.{Db}
use commandment.Store.Session.{one, save}
use commandment.Mdm.Endpoint.{item}
use commandment.Dep.{Service, Dep}
use commandment.Dep.Client.{account}

pub data DepOrgType : Type 0 where
  education organization : DepOrgType

pub data DepOrgVersion : Type 0 where
  v1 v2 : DepOrgVersion

-- DEPOrgType(value), and DEPOrgVersion(value)
abbrev org_type_of : Value → Result DepOrgType
org_type_of (text s) =
    if str_eq s "edu"
    then ok education
    else if str_eq s "org"
    then ok organization
    else err value_error
org_type_of _ = err value_error

abbrev org_version_of : Value → Result DepOrgVersion
org_version_of (text s) =
    if str_eq s "v1" then ok v1 else if str_eq s "v2" then ok v2 else err value_error
org_version_of _ = err value_error

-- The columns but the credentials, which only the client reads.
pub record DepAccount : Type 0 where
  pub id : ℕ
  pub server_name : Value
  pub server_uuid : Value
  pub admin_id : Value
  pub facilitator_id : Value
  pub org_name : Value
  pub org_email : Value
  pub org_phone : Value
  pub org_address : Value
  pub org_type : Option DepOrgType
  pub org_version : Option DepOrgVersion
  pub org_id : Value
  pub org_id_hash : Value
  pub cursor : Value
  pub more_to_follow : Value
  pub fetched_until : Option ℕ

-- The columns of DEPProfile that its upload names, and the others, which the schema dumps.
pub record DepProfile : Type 0 where
  pub id : ℕ
  pub uuid : Value
  pub other : Fields

pub record DepTables : Type 0 where
  pub accounts : List DepAccount
  pub profiles : List DepProfile
  pub db : Db

pub record DepSession : Type 0 where
  pub stored : DepTables
  pub working : DepTables
  pub client : Dep

-- dateutil.parser.parse
abbrev pub DateParser : Type 0
DateParser = Value → Result ℕ

abbrev pub account_key : DepAccount → ℕ
account_key a = a.id

abbrev pub commit_tables : Exec DepSession (Unit {0})
commit_tables s = (ok tt, record s { stored = s.working })

-- db.create_scoped_session(), or a new application context
abbrev pub new_session : Exec DepSession (Unit {0})
new_session s = (ok tt, record s { working = s.stored })

abbrev pub change_tables : (DepTables → DepTables) → Exec DepSession (Unit {0})
change_tables f s = (ok tt, record s { working = f s.working })

unfoldable pub put_account : DepAccount → Exec DepSession (Unit {0})
unfolding save
put_account a = change_tables (λ t. record t { accounts = save account_key a t.accounts })

-- A request of the client.
abbrev pub with_client : {A : Type 0} → Exec Dep A → Exec DepSession A
with_client m s = let (r, client) = m s.client in (r, record s { client = client })

abbrev pub is_none : Value → Bool
is_none null = true
is_none _ = false

-- The enumerations are set only where the reply has their keys.
abbrev pub with_org_type : Fields → DepAccount → Result DepAccount
unfolding item
with_org_type reply a =
    if contains "org_type" reply
    then elim (item "org_type" reply) [
      | ok v ↦ elim (org_type_of v) [ ok t ↦ ok (record a { org_type = some t }) | err e ↦ err e ]
      | err e ↦ err e
    ]
    else ok a

abbrev pub with_org_version : Fields → DepAccount → Result DepAccount
unfolding item
with_org_version reply a =
    if contains "org_version" reply
    then elim (item "org_version" reply) [
      | ok v ↦ elim (org_version_of v) [
        | ok t ↦ ok (record a { org_version = some t })
        | err e ↦ err e
      ]
      | err e ↦ err e
    ]
    else ok a

unfoldable pub with_organization : Fields → DepAccount → DepAccount
unfolding get_or
with_organization reply a = record a {
  server_uuid = get_or "server_uuid" null reply;
  server_name = get_or "server_name" null reply;
  facilitator_id = get_or "facilitator_id" null reply;
  admin_id = get_or "admin_id" null reply;
  org_name = get_or "org_name" null reply;
  org_email = get_or "org_email" null reply;
  org_phone = get_or "org_phone" null reply;
  org_address = get_or "org_address" null reply;
  org_id = get_or "org_id" null reply;
  org_id_hash = get_or "org_id_hash" null reply;
}

unfoldable pub refresh_organization : Service → DepAccount → Exec DepSession (Unit {0})
unfolding account with_organization with_org_type with_org_version put_account
refresh_organization service a = do
  reply ← with_client (account service)
  a' ← lift (with_org_type reply (with_organization reply a))
  a'' ← lift (with_org_version reply a')
  put_account a''
  commit_tables

abbrev pub ignore_no_account : Result (Unit {0}) → Result (Unit {0})
ignore_no_account (err no_result_found) = ok tt
ignore_no_account r = r

-- dep_sync_organization
unfoldable pub dep_sync_organization : Service → Exec DepSession (Unit {0})
unfolding one refresh_organization
dep_sync_organization service s =
    let (r, s') =
      (do
        new_session
        accounts ← gets (λ s. s.working.accounts)
        a ← lift (one accounts)
        if is_none a.server_name || is_none a.server_uuid
            then refresh_organization service a
            else pure tt)
        s in
    (ignore_no_account r, s')
