-- ===== src/Dep/Cursor/Paging.antt =====
-- The cursors of the enrollment programme visit the pages of the service.
use commandment.Base.{
  ℕ, zero, suc, ◌<◌, ◌≡◌, refl, ap, ◌∙◌, String, true, false, Option, none, some, List, [], ◌∷◌,
  length, arith, if◌then◌else◌, Bool,
}
use commandment.Python.Values.{Value, null, flag, truthy, Fields, end, field, get, get_or}
use commandment.Python.Exec.{
  stop_iteration, Result, ok, err, Exec, pure, raise, lift, bind-ok, ◌>>=◌,
}
use commandment.Dep.{Request, Response, Service, Dep}
use commandment.Dep.Client.{
  is_past, exchange, response_hook, send, call, json_of, fetch_request, sync_request, fetch_devices,
  sync_devices,
}
use commandment.Dep.Cursor.{cursor, more_to_follow, next_fetch, next_sync, sync_cursor}
use commandment.Dep.Client.Limits.{talking}

-- A loop `for page in cursor`, at most n rounds of it: StopIteration ends it.
abbrev seen :
    Result Fields → (Fields → Dep → Result (List Fields) × Dep) → Dep → Result (List Fields) × Dep
seen (ok page) next dep = (do pages ← next page; pure (page ∷ pages)) dep
seen (err stop_iteration) next dep = (ok [], dep)
seen (err e) next dep = (err e, dep)

unfoldable pub visited :
    (Option Fields → Exec Dep Fields) → ℕ → Option Fields → Exec Dep (List Fields)
visited next zero results dep = (ok [], dep)
visited next (suc n) results dep =
    let (r, dep') = next results dep in seen r (λ page. visited next n (some page)) dep'

-- The results say that more pages follow, from the cursor c on; before the first page, from none.
abbrev pub Continues : Option Fields → Value → Type 0
Continues none c = c ≡ null
Continues (some page) c =
    (get "more_to_follow" page ≡ some (flag true)) × (get "cursor" page ≡ some c)

abbrev pub IsLast : Option Fields → Type 0
IsLast none = ⊥
IsLast (some page) = get "more_to_follow" page ≡ some (flag false)

-- The pages that follow the results of a cursor: the service gives each one under the token, with no
-- new token and no limit, for the cursor that the page before it names.
pub data Follows (service : Service) (token : String) (ask : Value → Request)
    : Option Fields → List Fields → Type 0 where
  last : {results : Option Fields} → IsLast results → Follows service token ask results []
  more :
      {results : Option Fields} {page : Fields} {pages : List Fields} (c : Value)
      → Continues results c
      → service.send (some token) (ask c)
        ≡ ok (record {
          status_code = 200;
          session_header = none;
          retry_after_header = none;
          json = page;
          text = "";
        })
      → Follows service token ask (some page) pages
      → Follows service token ask results (page ∷ pages)

cursor-Continues :
    (results : Option Fields) (c : Value)
    → Continues results c
    → (more_to_follow results ≡ true) × (cursor results ≡ c)
unfolding more_to_follow cursor get_or get
cursor-Continues none c h = (refl, ground arith)
cursor-Continues (some end) c h = ground arith
cursor-Continues (some (field k v d)) c h = (
  ap (λ o. truthy (elim o [ none ↦ flag false | some w ↦ w ])) h.0,
  ap (λ o. elim o [ none ↦ null | some w ↦ w ]) h.1,
)

more_to_follow-IsLast : (results : Option Fields) → IsLast results → more_to_follow results ≡ false
unfolding more_to_follow get_or get
more_to_follow-IsLast none h = elim h [ ]
more_to_follow-IsLast (some end) h = ground arith
more_to_follow-IsLast (some (field k v d)) h =
    ap (λ o. truthy (elim o [ none ↦ flag false | some w ↦ w ])) h

abbrev given : Fields → Response
given page = record {
  status_code = 200;
  session_header = none;
  retry_after_header = none;
  json = page;
  text = "";
}

send_answered :
    (service : Service) (token : String) (expiry : Option ℕ) (request : Request) (page : Fields)
    → is_past service.now expiry ≡ false
    → service.send (some token) request ≡ ok (given page)
    → send service request (talking token expiry) ≡ (ok (some (given page)), talking token expiry)
unfolding send exchange response_hook
send_answered service token expiry request page valid sent = rw (valid, sent) refl

call_answered :
    (service : Service) (token : String) (expiry : Option ℕ) (request : Request) (page : Fields)
    → is_past service.now expiry ≡ false
    → service.send (some token) request ≡ ok (given page)
    → call service request (talking token expiry) ≡ (ok page, talking token expiry)
unfolding call
call_answered service token expiry request page valid sent =
    bind-ok (send service request) (λ r. lift (json_of r)) (talking token expiry)
      (talking token expiry) (some (given page))
      (send_answered service token expiry request page valid sent)

module _ (service : Service) (token : String) (expiry : Option ℕ)
    (valid : is_past service.now expiry ≡ false) where
  asked :
      (next : Option Fields → Exec Dep Fields) (ask : Value → Request)
      → ((c : Option Fields)
          → next c
            ≡ (if more_to_follow c then call service (ask (cursor c)) else raise stop_iteration))
      → (results : Option Fields) (b : Bool) → more_to_follow results ≡ b
      → next results (talking token expiry)
        ≡ (if b then call service (ask (cursor results)) else raise stop_iteration)
            (talking token expiry)
  asked next ask step results b h =
      ap (λ (m : Exec Dep Fields). m (talking token expiry)) (step results)
      ∙ ap
          (λ b.
            (if b then call service (ask (cursor results)) else raise stop_iteration)
              (talking token expiry))
          h

  -- A page of the service, and the end.
  pub next-more :
      (next : Option Fields → Exec Dep Fields) (ask : Value → Request)
      → ((c : Option Fields)
          → next c
            ≡ (if more_to_follow c then call service (ask (cursor c)) else raise stop_iteration))
      → (results : Option Fields) (page : Fields) (c : Value) → Continues results c
      → service.send (some token) (ask c) ≡ ok (given page)
      → next results (talking token expiry) ≡ (ok page, talking token expiry)
  next-more next ask step results page c h sent =
      let (follow, at) = cursor-Continues results c h in
      asked next ask step results true follow
      ∙ ap (λ v. call service (ask v) (talking token expiry)) at
      ∙ call_answered service token expiry (ask c) page valid sent

  pub next-last :
      (next : Option Fields → Exec Dep Fields) (ask : Value → Request)
      → ((c : Option Fields)
          → next c
            ≡ (if more_to_follow c then call service (ask (cursor c)) else raise stop_iteration))
      → (results : Option Fields) → IsLast results
      → next results (talking token expiry) ≡ (err stop_iteration, talking token expiry)
  next-last next ask step results h =
      asked next ask step results false (more_to_follow-IsLast results h)

  -- The loop over a cursor that asks for its pages by `ask`.
  visited-ask :
      (next : Option Fields → Exec Dep Fields) (ask : Value → Request)
      → ((c : Option Fields)
          → next c
            ≡ (if more_to_follow c then call service (ask (cursor c)) else raise stop_iteration))
      → (results : Option Fields) (pages : List Fields) (n : ℕ)
      → Follows service token ask results pages
      → length pages < n
      → visited next n results (talking token expiry) ≡ (ok pages, talking token expiry)
  unfolding visited
  visited-ask next ask step results [] zero f l = ground arith
  visited-ask next ask step results (p ∷ ps) zero f l = ground arith
  visited-ask next ask step results [] (suc n) (last h) l =
      ap (λ (x : Result Fields × Dep). seen x.0 (λ page. visited next n (some page)) x.1)
        (next-last next ask step results h)
  visited-ask next ask step results (p ∷ ps) (suc n) (more c h sent f) l =
      ap (λ (x : Result Fields × Dep). seen x.0 (λ page. visited next n (some page)) x.1)
        (next-more next ask step results p c h sent)
      ∙ bind-ok (visited next n (some p)) (λ pages. pure (p ∷ pages)) (talking token expiry)
          (talking token expiry) ps (visited-ask next ask step (some p) ps n f ground arith)

  -- With an access token that has not expired and a session token that the service neither
  -- replaces nor limits, where each page of devices that the service gives for the cursor of the
  -- one before says whether more follow, a loop over a fetch cursor gives exactly those pages in
  -- order and stops, within one round more than there are pages, and leaves the client as it was.
  pub visited-fetch :
      (pages : List Fields) (n : ℕ)
      → Follows service token fetch_request none pages
      → length pages < n
      → visited (next_fetch service) n none (talking token expiry)
        ≡ (ok pages, talking token expiry)
  unfolding next_fetch fetch_devices
  visited-fetch pages n f l =
      visited-ask (next_fetch service) fetch_request (λ c. refl) none pages n f l

  -- With an access token that has not expired and a session token that the service neither
  -- replaces nor limits, where each page that the service gives for the cursor of the one before
  -- says whether more follow, a loop over a sync cursor gives exactly the pages from its own
  -- cursor on, in order, and stops, within one round more than there are pages, and leaves the
  -- client as it was.
  pub visited-sync :
      (c : String) (pages : List Fields) (n : ℕ)
      → Follows service token sync_request (sync_cursor c) pages
      → length pages < n
      → visited (next_sync service) n (sync_cursor c) (talking token expiry)
        ≡ (ok pages, talking token expiry)
  unfolding next_sync sync_devices
  visited-sync c pages n f l =
      visited-ask (next_sync service) sync_request (λ c. refl) (sync_cursor c) pages n f l
