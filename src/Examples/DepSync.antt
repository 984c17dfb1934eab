-- ===== src/Examples/DepSync.antt =====
-- A service with a page of devices and a page that cannot be stored, and the runs of the DEP thread
-- against it.
use commandment.Base.{
  inr, ◌≡◌, ◌≤◌, refl, subst, String, true, false, none, some, [], ◌∷◌, length, keep, inl, arith,
}
use commandment.Python.Values.{
  Value, null, text, flag, arr, dict, nil, cons, Fields, end, field, get, get_or, contains,
}
use commandment.Python.Exec.{
  key_error, attribute_error, multiple_results_found, ok, err, ok_inj, pure, ◌>>=◌, ◌>>◌,
}
use commandment.Store.Session.{one}
use commandment.Mdm.Endpoint.{item, is_device}
use commandment.Mdm.Checkin.Routes.{serve_checkin}
use commandment.Dep.{Response, Service}
use commandment.Dep.Client.{fetch_request}
use commandment.Dep.Client.Limits.{talking}
use commandment.Dep.Cursor.Paging.{Follows, last, more}
use commandment.Dep.Account.{DepAccount, DepProfile, DepTables, DepSession, DateParser, new_session}
use commandment.Dep.Rows.{operation_of}
use commandment.Dep.Sync.{
  has_serial, store_page, store_device, store_items, store_devices, store_found, advanced,
  dep_fetch_devices,
}
use commandment.Dep.Sync.Kept.{store_pages, ValueWithin, PageWithin}
use commandment.Dep.Sync.Added.{Unkeyed}
use commandment.Dep.Sync.Served.{Answers}
use commandment.Dep.Sync.Pages.{dep_fetch_devices-pages}
use commandment.Dep.Sync.Resume.{last_cursor, dep_fetch_devices-interrupted}
use commandment.Dep.Sync.Serials.{IsDirectory}
use commandment.Dep.Sync.Sound.{dep_fetch_devices-IsDirectory}
use commandment.Dep.Sync.Taken.{Proceeds, authenticate-serial_taken}
use commandment.Dep.Sync.Failures.{store_page-unassigned}
use commandment.Dep.Thread.{dep_thread_callback}
use commandment.Dep.Thread.Runs.{dep_thread_callback-profiles}
use commandment.Dep.Thread.Expired.{session_of, expired_reply, dep_thread_callback-expired}
use commandment.Examples.Mdm.{services, apns, biplist, phone, two_queued}
use commandment.Examples.Checkin.{two_queued-IsSound}

abbrev parse : DateParser
parse v = ok 7

abbrev laptop : Fields
laptop = field "serial_number" (text "S2") (
    field "model" (text "MacBook Pro") (
      field "profile_status" (text "empty")
        (field "device_assigned_date" (text "2018-01-01T00:00:00Z") end)))

abbrev first_page : Fields
first_page = field "devices" (arr (cons (dict laptop) nil)) (
    field "cursor" (text "C1") (
      field "more_to_follow" (flag true) (field "fetched_until" (text "2018-01-02T00:00:00Z") end)))

-- no devices
abbrev broken_page : Fields
broken_page = field "cursor" (text "C2") (field "more_to_follow" (flag false) end)

abbrev replied : Fields → Response
replied json = record {
  status_code = 200;
  session_header = none;
  retry_after_header = none;
  json = json;
  text = "";
}

abbrev page_after : Value → Fields
page_after (dict (field l n (field c null end))) = first_page
page_after _ = broken_page

abbrev service : Service
service = record {
  get_session = ok (session_of "K");
  send = λ token request. ok (replied (page_after request.json));
  parsedate = λ after. none;
  now = 100;
}

abbrev account : DepAccount
account = record {
  id = 1;
  server_name = text "Server";
  server_uuid = text "7f01";
  admin_id = null;
  facilitator_id = null;
  org_name = null;
  org_email = null;
  org_phone = null;
  org_address = null;
  org_type = none;
  org_version = none;
  org_id = null;
  org_id_hash = null;
  cursor = null;
  more_to_follow = null;
  fetched_until = none;
}

abbrev tables : DepTables
tables = record { accounts = account ∷ []; profiles = []; db = two_queued }

abbrev session : DepSession
session = record { stored = tables; working = tables; client = talking "K" none }

fetch-Follows : Follows service "K" fetch_request none (first_page ∷ broken_page ∷ [])
unfolding get
fetch-Follows = more null refl refl (more (text "C1") (refl, refl) refl (last refl))

dep_fetch_devices-pages_example :
    dep_fetch_devices parse service 3 session
    ≡ (new_session >> store_pages parse account (first_page ∷ broken_page ∷ []) >>= λ _. pure true)
        session
dep_fetch_devices-pages_example =
    dep_fetch_devices-pages service "K" none parse account (first_page ∷ broken_page ∷ []) 3 session
      refl refl refl (inl (refl, fetch-Follows)) (omega arith)

abbrev account_after : DepAccount
account_after = record account {
  cursor = text "C1";
  more_to_follow = flag true;
  fetched_until = some 7;
}

unfoldable session_after : DepSession
unfolding store_pages
session_after = ((new_session >> store_pages parse account (first_page ∷ [])) session).1

first_page-stored :
    (new_session >> store_pages parse account (first_page ∷ [])) session
    ≡ (ok account_after, session_after)
unfolding session_after store_pages store_page store_devices store_items store_device store_found
    item get has_serial one contains advanced get_or
first_page-stored = refl

unfoldable session_failed : DepSession
unfolding store_page session_after
session_failed = (store_page parse account_after broken_page session_after).1

broken_page-failed :
    store_page parse account_after broken_page session_after
    ≡ (err (key_error "devices"), session_failed)
unfolding session_failed store_page item get
broken_page-failed = refl

dep_fetch_devices-interrupted_example :
    let (r, ended) = dep_fetch_devices parse service 3 session in
    (r ≡ err (key_error "devices"))
    × ((ended.stored ≡ session_after.stored)
        × ((ended.stored.accounts ≡ account_after ∷ [])
            × (account_after.cursor ≡ last_cursor (first_page ∷ []) null)))
dep_fetch_devices-interrupted_example =
    dep_fetch_devices-interrupted service "K" none parse (first_page ∷ []) [] broken_page 3 account
      account_after session session_after session_failed (key_error "devices") refl refl refl
      (inl (refl, fetch-Follows)) (omega arith) first_page-stored broken_page-failed

one_serial : (u : String) → length (keep (has_serial (text u)) (phone ∷ [])) ≤ 1
unfolding has_serial
one_serial u = ground arith

tables-IsDirectory : IsDirectory tables
tables-IsDirectory = record { sound = two_queued-IsSound; serials = one_serial }

page_after-Unkeyed : (v : Value) → PageWithin Unkeyed (page_after v)
unfolding item get contains
page_after-Unkeyed (dict (field l n (field c null end))) v e =
    subst (ValueWithin Unkeyed) (ok_inj (arr (cons (dict laptop) nil)) v e) ((refl, refl), tt)
page_after-Unkeyed _ v e = ground arith

service-Answers : Answers (PageWithin Unkeyed) service
service-Answers token request response sent =
    subst (λ (r : Response). PageWithin Unkeyed r.json)
      (ok_inj (replied (page_after request.json)) response sent) (page_after-Unkeyed request.json)

dep_fetch_devices-IsDirectory_example :
    IsDirectory (dep_fetch_devices parse service 3 session).1.stored
dep_fetch_devices-IsDirectory_example =
    dep_fetch_devices-IsDirectory parse service 3 session service-Answers tables-IsDirectory

-- A second phone with the serial number of the first one.
abbrev authenticate_message : Fields
authenticate_message =
    field "MessageType" (text "Authenticate")
      (field "UDID" (text "U2") (field "SerialNumber" (text "S1") end))

abbrev reported_phone : Fields
reported_phone = field "serial_number" (text "S1") (field "op_type" (text "modified") end)

abbrev session_taken : DepSession
session_taken = record session {
  working = record tables {
    db = (serve_checkin services apns biplist none (some authenticate_message) two_queued).1;
  };
}

unknown_udid : keep (is_device (text "U2")) two_queued.devices ≡ []
unfolding is_device
unknown_udid = refl

message_kind : get "MessageType" authenticate_message ≡ some (text "Authenticate")
unfolding get
message_kind = refl

message_from : get "UDID" authenticate_message ≡ some (text "U2")
unfolding get
message_from = refl

message_serial : get "SerialNumber" authenticate_message ≡ some (text "S1")
unfolding get
message_serial = refl

reported_serial : get "serial_number" reported_phone ≡ some (text "S1")
unfolding get
reported_serial = refl

reported_synced : Proceeds reported_phone
unfolding contains get operation_of
reported_synced = inr (text "modified", refl, refl)

authenticate-serial_taken_example :
    store_device parse reported_phone session_taken ≡ (err multiple_results_found, session_taken)
authenticate-serial_taken_example =
    authenticate-serial_taken services apns biplist none authenticate_message (text "U2") two_queued
      message_kind message_from unknown_udid "S1" phone parse reported_phone session_taken
      (inl refl) refl message_serial reported_serial reported_synced refl

abbrev added_laptop : Fields
added_laptop = field "serial_number" (text "S2") (
    field "profile_status" (text "empty") (
      field "op_type" (text "added") (
        field "op_date" (text "2018-01-03T00:00:00Z")
          (field "device_assigned_date" (text "2018-01-01T00:00:00Z") end))))

abbrev added_page : Fields
added_page = field "devices" (arr (cons (dict added_laptop) nil)) end

laptop_status : get "profile_status" added_laptop ≡ some (text "empty")
unfolding get
laptop_status = refl

laptop_operation : get "op_type" added_laptop ≡ some (text "added")
unfolding get
laptop_operation = refl

laptop_dated : get "op_date" added_laptop ≡ some (text "2018-01-03T00:00:00Z")
unfolding get
laptop_dated = refl

laptop_assigned : get "device_assigned_date" added_laptop ≡ some (text "2018-01-01T00:00:00Z")
unfolding get
laptop_assigned = refl

laptop_unassigned : get "profile_assign_time" added_laptop ≡ none
unfolding get
laptop_unassigned = refl

laptop_known : operation_of (text "added") ≡ ok tt
unfolding operation_of
laptop_known = refl

laptop_named : get "serial_number" added_laptop ≡ some (text "S2")
unfolding get
laptop_named = refl

laptop_unknown : keep (has_serial (text "S2")) two_queued.devices ≡ []
unfolding has_serial
laptop_unknown = refl

added_page-devices : get "devices" added_page ≡ some (arr (cons (dict added_laptop) nil))
unfolding get
added_page-devices = refl

store_page-unassigned_example :
    store_page parse account added_page session ≡ (err (key_error "profile_assign_time"), session)
store_page-unassigned_example =
    store_page-unassigned parse added_laptop (text "added") (text "2018-01-03T00:00:00Z")
      (text "2018-01-01T00:00:00Z") 7 laptop_status laptop_operation laptop_dated laptop_assigned
      refl laptop_unassigned (text "S2") session laptop_known laptop_named laptop_unknown account
      added_page nil added_page-devices

abbrev dump : DepProfile → Fields
dump p = p.other

dep_thread_callback-profiles_example :
    (dep_thread_callback parse dump service 3 session).1.stored.profiles ≡ []
dep_thread_callback-profiles_example = dep_thread_callback-profiles parse dump service 3 session

abbrev account_syncing : DepAccount
account_syncing = record account { cursor = text "C0" }

abbrev session_syncing : DepSession
session_syncing = record session { stored = record tables { accounts = account_syncing ∷ [] } }

abbrev service_expired : Service
service_expired = record service { send = λ token request. ok (expired_reply end) }

dep_thread_callback-expired_example :
    dep_thread_callback parse dump service_expired 3 session_syncing ≡ (
      err attribute_error,
      record {
        stored = record session_syncing.stored {
          accounts = record account_syncing { cursor = null } ∷ [];
        };
        working = record session_syncing.stored {
          accounts = record account_syncing { cursor = null } ∷ [];
        };
        client = talking "K" none;
      },
    )
dep_thread_callback-expired_example =
    dep_thread_callback-expired service_expired "K" "C0" end refl refl parse dump 2 account_syncing
      session_syncing refl refl refl
