-- ===== src/Dep/Thread/Runs.antt =====
-- How the runs of the DEP thread end.
use commandment.Base.{ℕ, ◌≡◌, refl, Bool, ◌||◌, List, if◌then◌else◌, str_eq}
use commandment.Python.Values.{Fields}
use commandment.Python.Exec.{
  service_error, no_result_found, Result, ok, err, Exec, pure, lift, ◌>>=◌, ◌>>◌,
}
use commandment.Python.Spec.{Ends, Spec-pure, Spec-raise, Spec-bind, Spec-if, Ends-same}
use commandment.Store.Session.{one}
use commandment.Dep.{Service, Dep}
use commandment.Dep.Client.{account}
use commandment.Dep.Account.{
  DepAccount, DepProfile, DepSession, DateParser, is_none, with_client, with_organization,
  with_org_type, with_org_version, put_account, refresh_organization, ignore_no_account,
  dep_sync_organization, new_session, commit_tables,
}
use commandment.Dep.Sync.{store_page, dep_fetch_devices}
use commandment.Dep.Sync.Kept.{IsKept, lift-IsKept, device-IsIgnored, page-IsKept}
use commandment.Dep.Sync.Loop.{fetch-IsKept}
use commandment.Dep.Thread.{
  after_fetch, try_fetch, dep_define_profiles, new_client, dep_thread_callback,
}

-- The profiles, stored and in the session.
record HasProfiles (profiles : List DepProfile) (s : DepSession) : Type 0 where
  pub stored : s.stored.profiles ≡ profiles
  pub working : s.working.profiles ≡ profiles

module _ (profiles : List DepProfile) where
  abbrev Has : DepSession → Type 0
  Has = HasProfiles profiles

  new_session-Has : IsKept Has new_session
  new_session-Has = record { at = λ s h. record { stored = h.stored; working = h.stored } }

  commit-Has : IsKept Has commit_tables
  commit-Has = record { at = λ s h. record { stored = h.working; working = h.working } }

  account-Has : (a : DepAccount) → IsKept Has (put_account a)
  unfolding put_account
  account-Has a = record { at = λ s h. record { stored = h.stored; working = h.working } }

  client-Has : {A : Type 0} (m : Exec Dep A) → IsKept Has (with_client m)
  client-Has m = record {
    at = λ s h.
        let (r, client) = m s.client in
        ended r (record s { client = client }) (record { stored = h.stored; working = h.working });
  }
    where
      ended : {A : Type 0} (r : Result A) (s : DepSession) → Has s → Ends (λ _. Has) Has (r, s)
      ended (ok a) s h = h
      ended (err e) s h = h

  refresh-Has : (service : Service) (a : DepAccount) → IsKept Has (refresh_organization service a)
  unfolding refresh_organization
  refresh-Has service a =
      Spec-bind (λ _. Has) _ (with_client (account service)) _ (client-Has (account service))
        λ reply.
          Spec-bind (λ _. Has) _ (lift (with_org_type reply (with_organization reply a))) _
            (lift-IsKept Has _)
            λ a'.
              Spec-bind (λ _. Has) _ (lift (with_org_version reply a')) _ (lift-IsKept Has _)
                λ a''.
                  Spec-bind (λ _. Has) _ (put_account a'') _ (account-Has a'') (λ _. commit-Has)

  organization-Has : (service : Service) → IsKept Has (dep_sync_organization service)
  unfolding dep_sync_organization
  organization-Has service = record {
    at = λ s h.
        let found = one s.stored.accounts in
        let refreshed : DepAccount → Exec DepSession (Unit {0}) = λ a.
          if is_none a.server_name || is_none a.server_uuid
          then refresh_organization service a
          else pure tt in
        let (r, s') = (lift found >>= refreshed) (record s { working = s.stored }) in
        settled r s' (
          (Spec-bind (λ _. Has) (λ _. Has) (lift found) refreshed (lift-IsKept Has found)
              (λ a.
                Spec-if _ (is_none a.server_name || is_none a.server_uuid) _ _
                  (λ _. refresh-Has service a) (λ _. Spec-pure _ tt (λ s h. h)))).at
            (record s { working = s.stored }) (record { stored = h.stored; working = h.stored }));
  }
    where
      settled :
          (r : Result (Unit {0})) (s : DepSession)
          → Ends (λ _. Has) Has (r, s)
          → Ends (λ _. Has) Has (ignore_no_account r, s)
      settled (ok a) s h = h
      settled (err no_result_found) s h = h
      settled (err e) s h = h

  page-Has :
      (parse : DateParser) (a : DepAccount) (page : Fields) → IsKept Has (store_page parse a page)
  page-Has parse =
      page-IsKept Has parse
        (device-IsIgnored Has parse (λ s db h. record { stored = h.stored; working = h.working }))
        account-Has commit-Has

  fetch-Has :
      (parse : DateParser) (service : Service) (n : ℕ)
      → IsKept Has (dep_fetch_devices parse service n)
  fetch-Has parse service n =
      fetch-IsKept (λ _. Unit) Has parse (λ s h. record { stored = h.stored; working = h.stored })
        (λ s client h. record { stored = h.stored; working = h.working })
        (λ a page w. page-Has parse a page) service n (λ c r cl p e. tt)

  after_fetch-Has : (a : DepAccount) (r : Result Bool) → IsKept Has (after_fetch a r)
  unfolding after_fetch
  after_fetch-Has a (ok b) = Spec-pure _ tt (λ s h. h)
  after_fetch-Has a (err (service_error status reason)) =
      Spec-if _ (str_eq reason "EXPIRED_CURSOR") _ _
        (λ _. record { at = λ s h. record { stored = h.stored; working = h.stored } })
        (λ _. Spec-pure _ tt (λ s h. h))
  after_fetch-Has a (err e) = Spec-raise _ e (λ s h. h)

  try_fetch-Has :
      (parse : DateParser) (service : Service) (n : ℕ) (a : DepAccount)
      → IsKept Has (try_fetch parse service n a)
  unfolding try_fetch
  try_fetch-Has parse service n a = record {
    at = λ s h.
        let (r, s') = dep_fetch_devices parse service n s in
        (after_fetch-Has a r).at s' (Ends-same Has r s' ((fetch-Has parse service n).at s h));
  }

  define-Has :
      (dump : DepProfile → Fields) (service : Service)
      → IsKept Has (dep_define_profiles dump service)
  unfolding dep_define_profiles
  define-Has dump service = record { at = λ s h. record { stored = h.stored; working = h.stored } }

-- No run of the DEP thread changes a stored profile, whatever the service answers and whichever
-- profiles wait for their upload.
pub dep_thread_callback-profiles :
    (parse : DateParser) (dump : DepProfile → Fields) (service : Service) (n : ℕ) (s : DepSession)
    → (dep_thread_callback parse dump service n s).1.stored.profiles ≡ s.stored.profiles
unfolding dep_thread_callback
dep_thread_callback-profiles parse dump service n s =
    let found = one s.stored.accounts in
    let has = HasProfiles s.stored.profiles in
    let (r, s') = (lift found >>= run) (record s { working = s.stored }) in
    (Ends-same has r s' (
      (Spec-bind (λ _. has) (λ _. has) (lift found) run (lift-IsKept has found)
          (λ a.
            Spec-bind (λ _. has) _ new_client _
              (record { at = λ s h. record { stored = h.stored; working = h.working } })
              λ _.
                Spec-bind (λ _. has) _ (dep_sync_organization service) _
                  (organization-Has s.stored.profiles service)
                  λ _.
                    Spec-bind (λ _. has) _ (try_fetch parse service n a) _
                      (try_fetch-Has s.stored.profiles parse service n a)
                      (λ _. define-Has s.stored.profiles dump service))).at
        (record s { working = s.stored }) (record { stored = refl; working = refl }))).stored
  where
    run : DepAccount → Exec DepSession (Unit {0})
    run a = do
      new_client
      dep_sync_organization service
      try_fetch parse service n a
      dep_define_profiles dump service
