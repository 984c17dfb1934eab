-- ===== src/Examples/Dep.antt =====
-- A service with two pages of devices, one that limits its clients, and one that knows no token.
use commandment.Base.{ℕ, ◌≡◌, refl, true, false, none, some, [], ◌∷◌, All, arith}
use commandment.Python.Values.{Value, null, text, dict, flag, Fields, end, field, get}
use commandment.Python.Exec.{ok, err, type_error, service_error}
use commandment.Dep.{Response, Service}
use commandment.Dep.Client.{fetch_request, sync_request, response_hook, send}
use commandment.Dep.Client.Limits.{
  calls, IsRefused, limited, talking, calls-limited, response_hook-seconds,
}
use commandment.Dep.Cursor.{next_fetch, next_sync, sync_cursor}
use commandment.Dep.Cursor.Paging.{visited, Follows, last, more, visited-fetch, visited-sync}

abbrev first_page : Fields
first_page = field "cursor" (text "C1") (field "more_to_follow" (flag true) end)

abbrev last_page : Fields
last_page = field "cursor" (text "C2") (field "more_to_follow" (flag false) end)

abbrev page_after : Value → Fields
page_after (dict (field l n (field c null end))) = first_page
page_after _ = last_page

abbrev replied : ℕ → Fields → Response
replied status json = record {
  status_code = status;
  session_header = none;
  retry_after_header = none;
  json = json;
  text = "";
}

abbrev service : Service
service = record {
  get_session = ok (replied 200 (field "auth_session_token" (text "K") end));
  send = λ token request. ok (replied 200 (page_after request.json));
  parsedate = λ after. none;
  now = 100;
}

abbrev strict : Service
strict = record service { send = λ token request. ok (replied 401 end) }

fetch-Follows : Follows service "K" fetch_request none (first_page ∷ last_page ∷ [])
unfolding get
fetch-Follows = more null refl refl (more (text "C1") (refl, refl) refl (last refl))

visited-fetch_example :
    visited (next_fetch service) 3 none (talking "K" (some 500))
    ≡ (ok (first_page ∷ last_page ∷ []), talking "K" (some 500))
visited-fetch_example =
    visited-fetch service "K" (some 500) refl (first_page ∷ last_page ∷ []) 3 fetch-Follows
      (omega arith)

sync-Follows : Follows service "K" sync_request (sync_cursor "C1") (last_page ∷ [])
unfolding sync_cursor get
sync-Follows = more (text "C1") (refl, refl) refl (last refl)

visited-sync_example :
    visited (next_sync service) 2 (sync_cursor "C1") (talking "K" none)
    ≡ (ok (last_page ∷ []), talking "K" none)
visited-sync_example =
    visited-sync service "K" none refl "C1" (last_page ∷ []) 2 sync-Follows (omega arith)

calls-limited_example :
    let (replies, dep) =
      calls
        ((service, fetch_request null) ∷ (record service { now = 9000 }, fetch_request null) ∷ [])
        (limited (some "K") none 200) in
    All IsRefused replies × (dep ≡ limited (some "K") none 200)
calls-limited_example =
    calls-limited
      ((service, fetch_request null) ∷ (record service { now = 9000 }, fetch_request null) ∷ [])
      (some "K") none 200

abbrev busy : Response
busy = record {
  status_code = 503;
  session_header = none;
  retry_after_header = some (49 ∷ 50 ∷ 48 ∷ []);
  json = end;
  text = "";
}

response_hook-seconds_example :
    response_hook service busy (talking "K" none) ≡ (err type_error, talking "K" none)
response_hook-seconds_example =
    response_hook-seconds service busy (talking "K" none) (49 ∷ 50 ∷ 48 ∷ []) refl
      (refl, (refl, (refl, tt))) refl

-- A 401 is raised, and the client keeps the session token that is refused.
strict_refuses :
    send strict (fetch_request null) (talking "K" none)
    ≡ (err (service_error 401 ""), talking "K" none)
unfolding send response_hook
strict_refuses = refl
