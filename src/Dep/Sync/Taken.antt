-- ===== src/Dep/Sync/Taken.antt =====
-- A device that enrolls under a serial number that the DEP thread has already stored.
use commandment.Base.{
  ◌≤◌, ◌≡◌, ◌⊎◌, refl, sym, ap, subst, ◌∙◌, String, Bool, true, false, Option, none, some, List, [],
  ◌∷◌, ◌++◌, keep, keep-append, length, length-append, IsIn, inl, inr, arith, eq_refl,
  if◌then◌else◌,
}
use commandment.Python.Values.{
  Value, null, text, Fields, get, get_or, contains, contains-iff-get, sql_eq,
}
use commandment.Python.Exec.{
  multiple_results_found, no_result_found, gets, Result, ok, err, Exec, pure, lift, bind-ok, ◌>>=◌,
  ◌>>◌,
}
use commandment.Store.Rows.{Device, Db}
use commandment.Store.Session.{Session, begin, commit, one}
use commandment.Apns.Push.{Apns}
use commandment.Mdm.Queue.{Services}
use commandment.Mdm.Endpoint.{Reply, body, item, item-some, is_device, with_device}
use commandment.Mdm.Checkin.{
  Biplist, new_device, insert_device, find_result, authenticate_found, authenticate,
}
use commandment.Mdm.Checkin.Routes.{view, checkin_routes, serve_checkin}
use commandment.Pki.{X509}
use commandment.Dep.Account.{DepSession, DateParser}
use commandment.Dep.Rows.{operation_of}
use commandment.Dep.Sync.{has_serial, store_found, store_device}

one-several : {A : Type 0} (xs : List A) → 2 ≤ length xs → one xs ≡ err multiple_results_found
unfolding one
one-several [] h = ground arith
one-several (x ∷ []) h = ground arith
one-several (x ∷ y ∷ xs) h = refl

kept-IsIn :
    (p : Device → Bool) (d : Device) (ds : List Device)
    → IsIn d ds
    → p d ≡ true
    → 1 ≤ length (keep p ds)
kept-IsIn p d [] m h = elim m [ ]
kept-IsIn p d (x ∷ ds) (inl e) h = ground (arith, ap p e)
kept-IsIn p d (x ∷ ds) (inr m) h = ground (arith, kept-IsIn p d ds m h)

two-kept :
    (serial : String) (d row : Device) (ds : List Device)
    → IsIn d ds
    → d.serial_number ≡ text serial
    → row.serial_number ≡ text serial
    → 2 ≤ length (keep (has_serial (text serial)) (ds ++ row ∷ []))
unfolding has_serial
two-kept serial d row ds m own same =
    let matches = λ (e : Device) (h : e.serial_number ≡ text serial).
      ap (λ v. sql_eq v (text serial)) h ∙ eq_refl serial in
    let first = kept-IsIn (has_serial (text serial)) d ds m (matches d own) in
    rw (keep-append, matches row same, length-append) (omega (arith, first))

-- A device of a fetch, or of a sync with an operation that there is.
abbrev pub Proceeds : Fields → Type 0
Proceeds device =
    (contains "op_type" device ≡ false)
    ⊎ ((op : Value) × (get "op_type" device ≡ some op) × (operation_of op ≡ ok tt))

abbrev tested : Fields → Exec DepSession (Unit {0})
tested device =
    if contains "op_type" device
    then (do op ← lift (item "op_type" device); lift (operation_of op))
    else pure tt

Proceeds-tested :
    (device : Fields) (s : DepSession) → Proceeds device → tested device s ≡ (ok tt, s)
Proceeds-tested device s (inl fetched) = rw fetched refl
Proceeds-tested device s (inr (op, named, fine)) =
    let synced : contains "op_type" device ≡ true =
      ground (arith, contains-iff-get "op_type" device, named) in
    rw synced (
      bind-ok (lift (item "op_type" device)) (λ op. lift (operation_of op)) s s op
        (ap (λ r. (r, s)) (item-some "op_type" device op named))
      ∙ ap (λ r. (r, s)) fine)

module _ (services : Services) (apns : Apns) (biplist : Biplist) (signers : Option (List X509))
    (message : Fields) (udid : Value) (db : Db)
    (kind : get "MessageType" message ≡ some (text "Authenticate"))
    (from : get "UDID" message ≡ some udid) (unknown : keep (is_device udid) db.devices ≡ []) where
  abbrev enrolling : Db
  enrolling = insert_device (new_device services db.next_device_id udid message) db

  abbrev opened : Db → Session
  opened db' = record { stored = db; working = db'; draws = 0 }

  authenticate-unknown :
      authenticate services message (begin db)
      ≡ (ok (body "OK"), record { stored = enrolling; working = enrolling; draws = 0 })
  unfolding authenticate begin find_result authenticate_found commit
  authenticate-unknown =
      bind-ok (lift (item "UDID" message)) (λ u. find_result u >>= continue u) (begin db) (begin db)
        udid (ap (λ r. (r, begin db)) (item-some "UDID" message udid from))
      ∙ bind-ok (find_result udid) (continue udid) (begin db) (begin db) (err no_result_found) (
          ap (λ ds. (ok (with_device (one ds) no_result_found), begin db))
            (unfold is_device in unknown))
    where
      continue : Value → Result Device → Exec Session Reply
      continue u found = do authenticate_found services u message found; commit; pure (body "OK")

  serve_checkin-unknown :
      (serve_checkin services apns biplist signers (some message) db).1 ≡ enrolling
  unfolding serve_checkin view checkin_routes
  serve_checkin-unknown =
      ap (λ (m : Exec Session Reply). (m (begin db)).1.stored) routed
      ∙ ap (λ (x : Result Reply × Session). x.1.stored) authenticate-unknown
    where
      routed :
          view (checkin_routes services apns biplist signers) message
          ≡ authenticate services message
      routed = rw kind refl

  -- Where a row of the device table has a serial number and a device of an unknown UDID
  -- authenticates with the same one, store_device on the tables behind the message raises
  -- MultipleResultsFound for each device of a page that has that serial number and no op_type or a
  -- valid one, and changes nothing.
  pub authenticate-serial_taken :
      (serial : String) (d : Device) (parse : DateParser) (device : Fields) (s : DepSession)
      → IsIn d db.devices
      → d.serial_number ≡ text serial
      → get "SerialNumber" message ≡ some (text serial)
      → get "serial_number" device ≡ some (text serial)
      → Proceeds device
      → s.working.db ≡ (serve_checkin services apns biplist signers (some message) db).1
      → store_device parse device s ≡ (err multiple_results_found, s)
  unfolding store_device has_serial new_device insert_device get_or store_found
  authenticate-serial_taken serial d parse device s m own reported named fetched after =
      let row = new_device services db.next_device_id udid message in
      let stored : s.working.db.devices ≡ db.devices ++ row ∷ [] =
        ap (λ (t : Db). t.devices) (after ∙ serve_checkin-unknown) in
      let several =
        subst (λ ds. one (keep (has_serial (text serial)) ds) ≡ err multiple_results_found)
          (sym stored)
          (one-several _ (
            two-kept serial d row db.devices m own
              (ap (λ o. elim o [ none ↦ null | some w ↦ w ]) reported))) in
      bind-ok (tested device) (λ _. lift (item "serial_number" device) >>= find) s s tt
        (Proceeds-tested device s fetched)
      ∙ bind-ok (lift (item "serial_number" device)) find s s (text serial)
          (ap (λ r. (r, s)) (item-some "serial_number" device (text serial) named))
      ∙ ap (λ (r : Result Device). store_found parse device r s) several
    where
      find : Value → Exec DepSession (Unit {0})
      find v = do
        found ← gets (λ t. one (keep (has_serial v) t.working.db.devices))
        store_found parse device found
