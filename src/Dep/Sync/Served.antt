-- ===== src/Dep/Sync/Served.antt =====
-- What holds of each body that the service answers holds of each page that the client gets from it.
use commandment.Base.{
  ◌≡◌, subst, String, Bool, true, false, Option, none, some, ℕ, arith, if◌then◌else◌,
}
use commandment.Python.Values.{null, Fields}
use commandment.Python.Exec.{
  client_error, attribute_error, stop_iteration, Result, ok, err, ok_inj, Exec, raise, lift, gets,
}
use commandment.Python.Spec.{Ends, Spec, Spec-pure, Spec-raise, Spec-lift, Spec-bind, Spec-if}
use commandment.Dep.{Request, Response, Service, Dep}
use commandment.Dep.Client.{
  response_hook, raise_for_status, ensure_token, is_past, exchange, unless_limited, send, json_of,
  call, fetch_request, sync_request, fetch_devices, sync_devices,
}
use commandment.Dep.Cursor.{more_to_follow, cursor, next_fetch, next_sync}
use commandment.Dep.Sync.{devices}
use commandment.Dep.Sync.Loop.{Serves}

-- The bodies that the service answers.
abbrev pub Answers : (Fields → Type 0) → Service → Type 0
Answers W service =
    (token : Option String) (request : Request) (response : Response)
    → service.send token request ≡ ok response
    → W response.json

module _ (W : Fields → Type 0) (service : Service) (answers : Answers W service) where
  abbrev Any : {A : Type 0} → Exec Dep A → Type 0
  Any m = Spec (λ _. Unit) m (λ _. λ _. Unit) (λ _. Unit)

  Any-run : {A : Type 0} (m : Exec Dep A) → Any m
  Any-run m = record { at = λ s h. ended (m s).0 (m s).1 }
    where
      ended : {A : Type 0} (r : Result A) (s : Dep) → Ends (λ _. λ _. Unit) (λ _. Unit) (r, s)
      ended (ok a) s = tt
      ended (err e) s = tt

  abbrev Body : Option Response → Type 0
  Body none = Unit
  Body (some r) = W r.json

  exchange-Body :
      (request : Request) → Spec (λ _. Unit) (exchange service request) (λ o _. Body o) (λ _. Unit)
  unfolding exchange
  exchange-Body request =
      Spec-bind (λ _. λ _. Unit) _ (gets (λ dep. dep.session_token)) _ (Any-run _)
        λ token.
          Spec-bind (λ _. λ _. Unit) _ (ensure_token service token) _ (Any-run _)
            λ _.
              Spec-bind (λ _. λ _. Unit) _ (gets (λ dep. dep.session_token)) _ (Any-run _)
                λ held.
                  Spec-bind (λ r _. W r.json) _ (lift (service.send held request)) _
                    (Spec-lift _ (service.send held request) (λ r e s h. answers held request r e)
                      (λ s h. tt))
                    λ r.
                      Spec-bind (λ _ _. W r.json) _ (response_hook service r) _
                        (record {
                          at = λ s h.
                              passed r (response_hook service r s).0 (response_hook service r s).1
                                h;
                        })
                        λ _.
                          Spec-bind (λ _ _. W r.json) _ (raise_for_status r) _
                            (record {
                              at = λ s h.
                                  passed r (raise_for_status r s).0 (raise_for_status r s).1 h;
                            })
                            (λ _. Spec-pure _ (some r) (λ s h. h))
    where
      passed :
          (r : Response) (x : Result (Unit {0})) (s : Dep)
          → W r.json
          → Ends {S = Dep} {A = Unit {0}} (λ _. λ _. W r.json) (λ _. Unit) (x, s)
      passed r (ok a) s h = h
      passed r (err e) s h = tt

  limited-Body :
      (request : Request) (after : Option ℕ)
      → Spec (λ _. Unit) (unless_limited service request after) (λ o _. Body o) (λ _. Unit)
  limited-Body request (some t) = Spec-pure _ none (λ s h. tt)
  limited-Body request none = exchange-Body request

  send-Body :
      (request : Request) → Spec (λ _. Unit) (send service request) (λ o _. Body o) (λ _. Unit)
  unfolding send
  send-Body request = record { at = λ s h. tested s (is_past service.now s.access_token_expiry) }
    where
      tested :
          (s : Dep) (b : Bool)
          → Ends {S = Dep} {A = Option Response}
              (λ o _. Body o)
              (λ _. Unit)
              (if b then raise client_error s else unless_limited service request s.retry_after s)
      tested s true = tt
      tested s false = (limited-Body request s.retry_after).at s tt

  call-Page : (request : Request) → Spec (λ _. Unit) (call service request) (λ p _. W p) (λ _. Unit)
  unfolding call
  call-Page request = Spec-bind (λ o _. Body o) _ (send service request) _ (send-Body request) read
    where
      read :
          (o : Option Response)
          → Spec {S = Dep} (λ _. Body o) (lift (json_of o)) (λ p _. W p) (λ _. Unit)
      read none = Spec-raise _ attribute_error (λ s h. tt)
      read (some r) = Spec-pure _ r.json (λ s h. h)

  next-Page :
      (results : Option Fields) (request : Request)
      → Spec
          (λ _. Unit)
          (if more_to_follow results then call service request else raise stop_iteration)
          (λ p _. W p)
          (λ _. Unit)
  next-Page results request =
      Spec-if _ (more_to_follow results) _ _ (λ _. call-Page request)
        (λ _. Spec-raise _ stop_iteration (λ s h. tt))

  answered :
      (r : Result Fields) (s : Dep) (page : Fields)
      → Ends {S = Dep} {A = Fields} (λ p _. W p) (λ _. Unit) (r, s)
      → r ≡ ok page
      → W page
  answered (ok p) s page h e = subst W (ok_inj p page e) h
  answered (err c) s page h e = ground arith

  next_fetch-Page :
      (results : Option Fields)
      → Spec (λ _. Unit) (next_fetch service results) (λ p _. W p) (λ _. Unit)
  unfolding next_fetch fetch_devices
  next_fetch-Page results = next-Page results (fetch_request (cursor results))

  next_sync-Page :
      (results : Option Fields)
      → Spec (λ _. Unit) (next_sync service results) (λ p _. W p) (λ _. Unit)
  unfolding next_sync sync_devices
  next_sync-Page results = next-Page results (sync_request (cursor results))

  next-Served :
      (m : Exec Dep Fields) (client : Dep) (page : Fields)
      → Spec (λ _. Unit) m (λ p _. W p) (λ _. Unit)
      → (m client).0 ≡ ok page
      → W page
  next-Served m client page spec = answered (m client).0 (m client).1 page (spec.at client tt)

  pub Answers-Serves : Serves W service
  unfolding devices
  Answers-Serves null results client page =
      next-Served (next_fetch service results) client page (next_fetch-Page results)
  Answers-Serves v results client page =
      next-Served (next_sync service results) client page (next_sync-Page results)
