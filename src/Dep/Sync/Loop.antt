-- ===== src/Dep/Sync/Loop.antt =====
-- What each page keeps, a run of dep_fetch_devices keeps.
use commandment.Base.{◌≡◌, refl, ℕ, zero, suc, Bool, Option, some}
use commandment.Python.Values.{Value, Fields}
use commandment.Python.Exec.{stop_iteration, Result, ok, err, Exec, lift}
use commandment.Python.Spec.{Spec-bind}
use commandment.Store.Session.{one}
use commandment.Dep.{Service, Dep}
use commandment.Dep.Account.{DepAccount, DepSession, DateParser}
use commandment.Dep.Sync.{store_page, for_pages, page_or_end, devices, dep_fetch_devices}
use commandment.Dep.Sync.Kept.{IsKept, lift-IsKept}

-- What the client gets from the service as a page, at whatever cursor and however it stands.
abbrev pub Serves : (Fields → Type 0) → Service → Type 0
Serves W service =
    (cursor : Value) (results : Option Fields) (client : Dep) (page : Fields)
    → ((devices cursor).0 service results client).0 ≡ ok page
    → W page

module _ (W : Fields → Type 0) (P : DepSession → Type 0) (parse : DateParser)
    (restarted : (s : DepSession) → P s → P (record s { working = s.stored }))
    (clients : (s : DepSession) (client : Dep) → P s → P (record s { client = client }))
    (pages : (a : DepAccount) (page : Fields) → W page → IsKept P (store_page parse a page)) where
  paged-IsKept :
      (r : Result Fields) (next : Fields → Exec DepSession Bool)
      → ((page : Fields) → r ≡ ok page → IsKept P (next page))
      → IsKept P (page_or_end r next)
  paged-IsKept (ok page) next h = h page refl
  paged-IsKept (err stop_iteration) next h = record { at = λ s k. k }
  paged-IsKept (err e) next h = record { at = λ s k. k }

  for_pages-IsKept :
      (next : Option Fields → Exec Dep Fields) (n : ℕ) (a : DepAccount) (results : Option Fields)
      → ((results : Option Fields) (client : Dep) (page : Fields)
          → (next results client).0 ≡ ok page
          → W page)
      → IsKept P (for_pages parse next n a results)
  unfolding for_pages
  for_pages-IsKept next zero a results served = record { at = λ s h. h }
  for_pages-IsKept next (suc n) a results served = record {
    at = λ s h.
        let (r, client) = next results s.client in
        (paged-IsKept r _ (λ page e.
            Spec-bind (λ _. P) (λ _. P) (store_page parse a page)
              (λ a'. for_pages parse next n a' (some page))
              (pages a page (served results s.client page e))
              (λ a'. for_pages-IsKept next n a' (some page) served))).at
          (record s { client = client }) (clients s client h);
  }

  pub fetch-IsKept :
      (service : Service) (n : ℕ) → Serves W service → IsKept P (dep_fetch_devices parse service n)
  unfolding dep_fetch_devices
  fetch-IsKept service n served = record {
    at = λ s h.
        (Spec-bind (λ _. P) (λ _. P) (lift (one s.stored.accounts))
            (λ a.
              let (next, results) = devices a.cursor in for_pages parse (next service) n a results)
            (lift-IsKept P (one s.stored.accounts))
            (λ a.
              for_pages-IsKept ((devices a.cursor).0 service) n a (devices a.cursor).1
                (served a.cursor))).at
          (record s { working = s.stored }) (restarted s h);
  }
