-- ===== src/Dep/Thread/Expired.antt =====
-- A run of the DEP thread under a cursor that the service has let expire.
use commandment.Base.{
  ℕ, suc, ◌≡◌, refl, ap, ◌∙◌, String, Bool, true, false, ◌||◌, Option, none, some, List, [], ◌∷◌,
  arith, ◌==◌, if◌then◌else◌, map,
}
use commandment.Python.Values.{Value, null, text, Fields, end, field, get, get_or}
use commandment.Python.Exec.{
  service_error, attribute_error, Result, ok, err, Exec, pure, lift, gets, bind-ok, bind-err, ◌>>=◌,
  ◌>>◌,
}
use commandment.Store.Session.{one}
use commandment.Dep.{Response, Service, Dep}
use commandment.Dep.Client.{
  raise_for_status, json_of, call, send, exchange, fetch_token, response_hook, sync_devices,
  sync_request,
}
use commandment.Dep.Client.Limits.{talking}
use commandment.Dep.Cursor.{cursor, more_to_follow, next_sync, sync_cursor}
use commandment.Dep.Account.{
  DepAccount, DepProfile, DepTables, DepSession, DateParser, is_none, refresh_organization,
  ignore_no_account, dep_sync_organization,
}
use commandment.Dep.Sync.{store_page, devices, page_or_end, for_pages, dep_fetch_devices}
use commandment.Dep.Thread.{
  without_cursor, after_fetch, try_fetch, dep_define_profiles, new_client, logged,
  dep_thread_callback,
}

abbrev pub session_of : String → Response
session_of token = record {
  status_code = 200;
  session_header = none;
  retry_after_header = none;
  json = field "auth_session_token" (text token) end;
  text = "";
}

abbrev pub expired_reply : Fields → Response
expired_reply json = record {
  status_code = 400;
  session_header = none;
  retry_after_header = none;
  json = json;
  text = "EXPIRED_CURSOR";
}

abbrev fresh : Dep
fresh = record { session_token = none; access_token_expiry = none; retry_after = none }

module _ (service : Service) (token c : String) (json : Fields)
    (session : service.get_session ≡ ok (session_of token))
    (answer : service.send (some token) (sync_request (text c)) ≡ ok (expired_reply json)) where
  fetch_token-fresh : fetch_token service fresh ≡ (ok tt, talking token none)
  unfolding fetch_token get
  fetch_token-fresh = rw session refl

  abbrev exchanged : Exec Dep (Option Response)
  unfolding response_hook
  exchanged = do
    held ← gets (λ dep. dep.session_token)
    r ← lift (service.send held (sync_request (text c)))
    response_hook service r
    raise_for_status r
    pure (some r)

  exchanged-expired :
      exchanged (talking token none)
      ≡ (err (service_error 400 "EXPIRED_CURSOR"), talking token none)
  unfolding exchanged response_hook
  exchanged-expired = rw answer refl

  send-expired :
      send service (sync_request (text c)) fresh
      ≡ (err (service_error 400 "EXPIRED_CURSOR"), talking token none)
  unfolding send exchange exchanged
  send-expired =
      bind-ok (fetch_token service) (λ _. exchanged) fresh (talking token none) tt fetch_token-fresh
      ∙ exchanged-expired

  next_sync-expired :
      next_sync service (sync_cursor c) fresh
      ≡ (err (service_error 400 "EXPIRED_CURSOR"), talking token none)
  unfolding next_sync sync_cursor cursor more_to_follow sync_devices call get_or get
  next_sync-expired =
      bind-err (send service (sync_request (text c))) (λ r. lift (json_of r)) fresh
        (talking token none) (service_error 400 "EXPIRED_CURSOR") send-expired

  module _ (parse : DateParser) (dump : DepProfile → Fields) (n : ℕ) (a : DepAccount)
      (s : DepSession) (accounts : s.stored.accounts ≡ a ∷ []) (at : a.cursor ≡ text c)
      (named : is_none a.server_name || is_none a.server_uuid ≡ false) where
    abbrev started : DepSession
    started = record { stored = s.stored; working = s.stored; client = fresh }

    abbrev failed : DepSession
    failed = record { stored = s.stored; working = s.stored; client = talking token none }

    abbrev cleared : DepTables
    cleared = record s.stored { accounts = record a { cursor = null } ∷ [] }

    organization-known : dep_sync_organization service started ≡ (ok tt, started)
    unfolding dep_sync_organization one
    organization-known =
        ap (λ (x : Result (Unit {0}) × DepSession). (ignore_no_account x.0, x.1))
          (ap (λ found. (lift (one found) >>= refreshed) started) accounts
            ∙ ap (λ (b : Bool). (if b then refresh_organization service a else pure tt) started)
                named)
      where
        refreshed : DepAccount → Exec DepSession (Unit {0})
        refreshed b =
            if is_none b.server_name || is_none b.server_uuid
            then refresh_organization service b
            else pure tt

    fetch-expired :
        dep_fetch_devices parse service (suc n) started
        ≡ (err (service_error 400 "EXPIRED_CURSOR"), failed)
    unfolding dep_fetch_devices one devices for_pages
    fetch-expired =
        ap (λ found. (lift (one found) >>= λ b. paged_from b.cursor b) started) accounts
        ∙ ap (λ v. paged_from v a started) at
        ∙ ap
            (λ (x : Result Fields × Dep).
              page_or_end x.0
                (λ page. store_page parse a page >>= λ a'.
                  for_pages parse (next_sync service) n a' (some page))
                (record started { client = x.1 }))
            next_sync-expired
      where
        paged_from : Value → DepAccount → Exec DepSession Bool
        paged_from v b =
            let (next, results) = devices v in for_pages parse (next service) (suc n) b results

    try_fetch-expired :
        try_fetch parse service (suc n) a started
        ≡ (ok tt, record failed { stored = cleared; working = cleared })
    unfolding try_fetch after_fetch
    try_fetch-expired =
        ap (λ (x : Result Bool × DepSession). after_fetch a x.0 x.1) fetch-expired
        ∙ ap (λ found. with_accounts (map (without_cursor a.id) found)) accounts
        ∙ ap (λ (b : Bool). with_accounts ((if b then record a { cursor = null } else a) ∷ []))
            (own a.id)
      where
        with_accounts : List DepAccount → Result (Unit {0}) × DepSession
        with_accounts rows = (
          ok tt,
          record failed {
            stored = record s.stored { accounts = rows };
            working = record s.stored { accounts = rows };
          },
        )

        own : (i : ℕ) → (i == i) ≡ true
        own i = ground arith

    -- For a single account whose organization is known and whose cursor the service refuses as
    -- expired, a run of the DEP thread clears the cursor of the account and stores nothing else,
    -- and then ends with an AttributeError.
    pub dep_thread_callback-expired : dep_thread_callback parse dump service (suc n) s ≡ (
      err attribute_error,
      record { stored = cleared; working = cleared; client = talking token none },
    )
    unfolding dep_thread_callback one dep_define_profiles
    dep_thread_callback-expired =
        ap (λ (x : Result (Unit {0}) × DepSession). (logged x.0, x.1))
          (ap (λ found. (lift (one found) >>= run) (record s { working = s.stored })) accounts
            ∙ bind-ok (dep_sync_organization service)
                (λ _. try_fetch parse service (suc n) a >> dep_define_profiles dump service) started
                started tt organization-known
            ∙ bind-ok (try_fetch parse service (suc n) a) (λ _. dep_define_profiles dump service)
                started (record failed { stored = cleared; working = cleared }) tt
                try_fetch-expired)
      where
        run : DepAccount → Exec DepSession (Unit {0})
        run b = do
          new_client
          dep_sync_organization service
          try_fetch parse service (suc n) b
          dep_define_profiles dump service
