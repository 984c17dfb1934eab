-- ===== src/Dep/Sync/Pages.antt =====
-- The loop of dep_fetch_devices over the pages of the service.
use commandment.Base.{
  ℕ, zero, suc, ◌<◌, ◌≡◌, refl, sym, ap, subst, ◌∙◌, String, Bool, true, false, Option, none, some,
  List, [], ◌∷◌, length, arith, ◌⊎◌, inl, inr, if◌then◌else◌,
}
use commandment.Python.Values.{Value, null, text, Fields}
use commandment.Python.Exec.{stop_iteration, Result, ok, err, Exec, pure, raise, lift, ◌>>=◌, ◌>>◌}
use commandment.Python.Spec.{Ends}
use commandment.Store.Session.{one}
use commandment.Dep.{Request, Service, Dep}
use commandment.Dep.Client.{is_past, call, fetch_request, sync_request, fetch_devices, sync_devices}
use commandment.Dep.Client.Limits.{talking}
use commandment.Dep.Cursor.{cursor, more_to_follow, next_fetch, next_sync, sync_cursor}
use commandment.Dep.Cursor.Paging.{Follows, last, more, next-more, next-last}
use commandment.Dep.Account.{DepAccount, DepSession, DateParser, new_session, put_account}
use commandment.Dep.Sync.{store_page, for_pages, page_or_end, devices, dep_fetch_devices}
use commandment.Dep.Sync.Kept.{store_pages, IsKept, device-IsIgnored, page-IsKept}

abbrev Holds : Dep → DepSession → Type 0
Holds client s = s.client ≡ client

-- The pages do not touch the client.
page-Holds :
    (client : Dep) (parse : DateParser) (a : DepAccount) (page : Fields)
    → IsKept (Holds client) (store_page parse a page)
unfolding put_account
page-Holds client parse a page =
    page-IsKept (Holds client) parse (device-IsIgnored (Holds client) parse (λ s db h. h))
      (λ a. record { at = λ s h. h }) record { at = λ s h. h } a page

module _ (service : Service) (token : String) (expiry : Option ℕ)
    (valid : is_past service.now expiry ≡ false) (parse : DateParser)
    (next : Option Fields → Exec Dep Fields) (ask : Value → Request)
    (step : (c : Option Fields)
      → next c
        ≡ (if more_to_follow c then call service (ask (cursor c)) else raise stop_iteration)) where
  abbrev paged : DepAccount → ℕ → DepSession → Result Fields × Dep → Result Bool × DepSession
  paged a n s (r, client) =
      page_or_end r
        (λ page. store_page parse a page >>= λ a'. for_pages parse next n a' (some page))
        (record s { client = client })

  rest :
      (p : Fields) (ps : List Fields) (n : ℕ) (a : DepAccount) (s : DepSession)
      → s.client ≡ talking token expiry
      → ((a' : DepAccount) (s' : DepSession)
          → s'.client ≡ talking token expiry
          → for_pages parse next n a' (some p) s' ≡ (store_pages parse a' ps >>= λ _. pure true) s')
      → (store_page parse a p >>= λ a'. for_pages parse next n a' (some p)) s
        ≡ ((store_page parse a p >>= λ a'. store_pages parse a' ps) >>= λ _. pure true) s
  rest p ps n a s held loop =
      ends (store_page parse a p s).0 (store_page parse a p s).1
        ((page-Holds (talking token expiry) parse a p).at s held)
    where
      ends :
          (r : Result DepAccount) (s' : DepSession)
          → Ends (λ _. Holds (talking token expiry)) (Holds (talking token expiry)) (r, s')
          → (lift r >>= λ a'. for_pages parse next n a' (some p)) s'
            ≡ ((lift r >>= λ a'. store_pages parse a' ps) >>= λ _. pure true) s'
      ends (ok a') s' held' = loop a' s' held'
      ends (err e) s' held' = refl

  for_pages-store_pages :
      (pages : List Fields) (n : ℕ) (a : DepAccount) (results : Option Fields) (s : DepSession)
      → s.client ≡ talking token expiry
      → Follows service token ask results pages
      → length pages < n
      → for_pages parse next n a results s ≡ (store_pages parse a pages >>= λ _. pure true) s
  unfolding for_pages store_pages
  for_pages-store_pages [] zero a results s held f l = ground arith
  for_pages-store_pages (p ∷ ps) zero a results s held f l = ground arith
  for_pages-store_pages [] (suc n) a results s held (last h) l = ap (paged a n s) (
      subst (λ c. next results c ≡ (err stop_iteration, c)) (sym held)
        (next-last service token expiry valid next ask step results h))
  for_pages-store_pages (p ∷ ps) (suc n) a results s held (more c h sent f) l =
      ap (paged a n s) (
        subst (λ c. next results c ≡ (ok p, c)) (sym held)
          (next-more service token expiry valid next ask step results p c h sent))
      ∙ rest p ps n a s held
          (λ a' s' held'. for_pages-store_pages ps n a' (some p) s' held' f ground arith)

-- How the devices of an account begin: a fetch of them all without a cursor, else a sync from it.
abbrev pub Begins : Service → String → DepAccount → List Fields → Type 0
Begins service token a pages =
    ((a.cursor ≡ null) × Follows service token fetch_request none pages)
    ⊎ ((c : String) × (a.cursor ≡ text c)
        × Follows service token sync_request (sync_cursor c) pages)

-- For a client that may talk and a single account, where each page that the service gives, for the
-- fetch that a missing cursor begins or for the sync from the cursor of the account, says whether
-- more follow, dep_fetch_devices stores exactly those pages in order and then ends, within one
-- round more than there are pages, or ends with the exception of the first page that cannot be
-- stored.
pub dep_fetch_devices-pages :
    (service : Service) (token : String) (expiry : Option ℕ) (parse : DateParser) (a : DepAccount)
    (pages : List Fields) (n : ℕ) (s : DepSession)
    → is_past service.now expiry ≡ false
    → s.client ≡ talking token expiry
    → s.stored.accounts ≡ a ∷ []
    → Begins service token a pages
    → length pages < n
    → dep_fetch_devices parse service n s
      ≡ (new_session >> store_pages parse a pages >>= λ _. pure true) s
unfolding dep_fetch_devices devices one next_fetch fetch_devices next_sync sync_devices
dep_fetch_devices-pages service token expiry parse a pages n s valid held accounts begins l =
    ap
      (λ found. (lift (one found) >>= λ a. paged_from a.cursor a) (record s { working = s.stored }))
      accounts
    ∙ started begins
  where
    paged_from : Value → DepAccount → Exec DepSession Bool
    paged_from v a = let (next, results) = devices v in for_pages parse (next service) n a results

    started :
        Begins service token a pages
        → paged_from a.cursor a (record s { working = s.stored })
          ≡ (store_pages parse a pages >>= λ _. pure true) (record s { working = s.stored })
    started (inl (at, f)) =
        ap (λ v. paged_from v a (record s { working = s.stored })) at
        ∙ for_pages-store_pages service token expiry valid parse (next_fetch service) fetch_request
            (λ c. refl) pages n a none (record s { working = s.stored }) held f l
    started (inr (c, at, f)) =
        ap (λ v. paged_from v a (record s { working = s.stored })) at
        ∙ for_pages-store_pages service token expiry valid parse (next_sync service) sync_request
            (λ c. refl) pages n a (sync_cursor c) (record s { working = s.stored }) held f l
