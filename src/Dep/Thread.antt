-- ===== src/Dep/Thread.antt =====
-- dep_define_profiles and dep_thread_callback of commandment/dep/threads.py. What AppleDEPProfileSchema
-- dumps is an argument; the callback runs once.
pub mod Runs
pub mod Expired
use commandment.Base.{
  ℕ, String, Bool, true, false, ◌&&◌, Option, none, some, List, [], ◌∷◌, keep, any, map, ◌==◌,
  str_eq, if◌then◌else◌,
}
use commandment.Python.Values.{Value, null, Fields, contains}
use commandment.Python.Exec.{
  Exn, service_error, attribute_error, assertion_error, no_result_found, Result, ok, err, Exec,
  pure, raise, lift, gets, ◌>>=◌, ◌>>◌,
}
use commandment.Store.Session.{one, save}
use commandment.Mdm.Endpoint.{item}
use commandment.Dep.{Service, Dep}
use commandment.Dep.Client.{define_profile}
use commandment.Dep.Account.{
  DepAccount, DepProfile, DepTables, DepSession, DateParser, is_none, commit_tables, new_session,
  change_tables, put_account, with_client, dep_sync_organization,
}
use commandment.Dep.Sync.{dep_fetch_devices}

-- The attributes of DEPProfile: last_upload_at is commented out.
abbrev profile_attributes : List String
profile_attributes =
    "id" ∷ "uuid" ∷ "dep_account_id" ∷ "dep_account" ∷ "profile_name" ∷ "url" ∷ "allow_pairing"
    ∷ "is_supervised" ∷ "is_multi_user" ∷ "is_mandatory" ∷ "await_device_configured"
    ∷ "is_mdm_removable" ∷ "support_phone_number" ∷ "auto_advance_setup" ∷ "support_email_address"
    ∷ "org_magic" ∷ "skip_setup_items" ∷ "department" ∷ "anchor_certs" ∷ "supervising_host_certs"
    ∷ "default_for_accounts" ∷ "devices" ∷ []

-- DEPProfile.name, for a filter
abbrev pub profile_attribute : String → Result (Unit {0})
profile_attribute name = if any (str_eq name) profile_attributes then ok tt else err attribute_error

-- DEPProfile.uuid.is_(None); there is no column for the other filter.
abbrev is_pending_profile : DepProfile → Bool
is_pending_profile p = is_none p.uuid

abbrev profile_key : DepProfile → ℕ
profile_key p = p.id

-- Whatever an upload raises is logged.
abbrev ignore_errors : Exec DepSession (Unit {0}) → Exec DepSession (Unit {0})
ignore_errors m s = let (r, s') = m s in (ok tt, s')

-- `assert 'profile_uuid' in response`
abbrev assert_uuid : Fields → Result (Unit {0})
assert_uuid response = if contains "profile_uuid" response then ok tt else err assertion_error

-- The upload of one profile.
unfoldable pub upload_profile :
    (DepProfile → Fields) → Service → DepProfile → Exec DepSession (Unit {0})
unfolding define_profile item save
upload_profile dump service p = do
  response ← with_client (define_profile service (dump p))
  lift (assert_uuid response)
  uuid ← lift (item "profile_uuid" response)
  change_tables
      (λ t. record t { profiles = save profile_key (record p { uuid = uuid }) t.profiles })

unfoldable pub upload_all :
    (DepProfile → Fields) → Service → List DepProfile → Exec DepSession (Unit {0})
unfolding upload_profile
upload_all dump service [] = pure tt
upload_all dump service (p ∷ ps) =
    ignore_errors (upload_profile dump service p) >> upload_all dump service ps

-- dep_define_profiles: the filters are built before the query runs.
unfoldable pub dep_define_profiles : (DepProfile → Fields) → Service → Exec DepSession (Unit {0})
unfolding upload_all
dep_define_profiles dump service = do
  new_session
  lift (profile_attribute "uuid")
  lift (profile_attribute "last_upload_at")
  pending ← gets (λ s. keep is_pending_profile s.working.profiles)
  upload_all dump service pending
  commit_tables

-- dep_account.cursor = None, on the row of the account
abbrev pub without_cursor : ℕ → DepAccount → DepAccount
without_cursor id a = if a.id == id then record a { cursor = null } else a

-- `except DEPServiceError`: an expired cursor is cleared for the next run.
unfoldable pub after_fetch : DepAccount → Result Bool → Exec DepSession (Unit {0})
after_fetch a (ok b) = pure tt
after_fetch a (err (service_error status text)) =
    if str_eq text "EXPIRED_CURSOR"
    then (do
      new_session
      change_tables (λ t. record t { accounts = map (without_cursor a.id) t.accounts })
      commit_tables)
    else pure tt
after_fetch a (err e) = raise e

-- `try: dep_fetch_devices(…)`
unfoldable pub try_fetch : DateParser → Service → ℕ → DepAccount → Exec DepSession (Unit {0})
unfolding dep_fetch_devices after_fetch
try_fetch parse service n a s =
    let (r, s') = dep_fetch_devices parse service n s in after_fetch a r s'

-- DEP(consumer_key=…, …): a client without an expiry of its access token.
abbrev pub new_client : Exec DepSession (Unit {0})
new_client s = (
  ok tt,
  record s {
    client = record { session_token = none; access_token_expiry = none; retry_after = none };
  },
)

abbrev pub logged : Result (Unit {0}) → Result (Unit {0})
logged (err no_result_found) = ok tt
logged r = r

-- dep_thread_callback
unfoldable pub dep_thread_callback :
    DateParser → (DepProfile → Fields) → Service → ℕ → Exec DepSession (Unit {0})
unfolding one dep_sync_organization try_fetch dep_define_profiles
dep_thread_callback parse dump service n s =
    let (r, s') =
      (do
        new_session
        accounts ← gets (λ s. s.working.accounts)
        a ← lift (one accounts)
        new_client
        dep_sync_organization service
        try_fetch parse service n a
        dep_define_profiles dump service)
        s in
    (logged r, s')
