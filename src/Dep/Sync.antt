-- ===== src/Dep/Sync.antt =====
-- dep_fetch_devices of commandment/dep/threads.py. The devices of a page are taken as the list of
-- dictionaries that the service documents.
pub mod Kept
pub mod Pages
pub mod Resume
pub mod Devices
pub mod Added
pub mod Serials
pub mod Loop
pub mod Served
pub mod Sound
pub mod Taken
pub mod Failures
use commandment.Base.{
  ℕ, zero, suc, ltb, ◌==◌, String, Bool, true, false, Option, none, some, List, [], ◌∷◌, ◌++◌, keep,
  any, str_eq, not, if◌then◌else◌,
}
use commandment.Python.Values.{
  Value, null, text, num, flag, arr, dict, Items, nil, cons, Fields, end, field, get, get_or,
  contains, put, sql_eq,
}
use commandment.Python.Exec.{
  Exn, integrity_error, key_error, type_error, value_error, no_result_found, stop_iteration, Result,
  ok, err, Exec, pure, raise, lift, gets, modify, ◌>>=◌, ◌>>◌,
}
use commandment.Store.Rows.{Device, Db}
use commandment.Store.Session.{one, save, device_key}
use commandment.Mdm.Endpoint.{item}
use commandment.Mdm.Checkin.{insert_device}
use commandment.Mdm.Handlers.Information.{set_attribute}
use commandment.Dep.{Service, Dep}
use commandment.Dep.Cursor.{next_fetch, next_sync, sync_cursor}
use commandment.Dep.Account.{
  DepAccount, DepTables, DepSession, DateParser, is_none, commit_tables, new_session, change_tables,
  put_account, with_client,
}
use commandment.Dep.Rows.{
  operation_of, without, delete_key, is_assigned, assign_item, assign_date, assign_profile_columns,
  update_device, parse_key, prepare_device, dep_device,
}

-- Device.serial_number == v, which is IS NULL for None
unfoldable pub has_serial : Value → Device → Bool
has_serial v d = if is_none v then is_none d.serial_number else sql_eq d.serial_number v

abbrev pub with_row : Device → Db → Db
with_row d db = record db {
  devices = db.devices ++ d ∷ [];
  next_device_id = if ltb d.id db.next_device_id then db.next_device_id else suc d.id;
}

abbrev pub add_row : Device → DepTables → DepTables
add_row d t = record t { db = with_row d t.db }

-- The row is flushed under its number where no row has it.
unfoldable pub insert_dep : Device → Exec DepSession (Unit {0})
insert_dep d = do
  taken ← gets (λ s. any (λ e. e.id == d.id) s.working.db.devices)
  if taken then raise integrity_error else change_tables (add_row d)

unfoldable pub add_device : DateParser → Fields → Exec DepSession (Unit {0})
unfolding prepare_device dep_device insert_dep
add_device parse device s =
    let (r, device') = prepare_device parse device in
    (do lift r; d ← lift (dep_device s.working.db.next_device_id device'); insert_dep d) s

-- The assignments raise before the row is saved: what they leave in the session is never committed.
unfoldable pub change_device : DateParser → Fields → Device → Exec DepSession (Unit {0})
unfolding update_device save
change_device parse device d =
    let (r, d') = update_device parse device d in
    do
      lift r
      change_tables
          (λ t. record t { db = record t.db { devices = save device_key d' t.db.devices } })

unfoldable pub store_found : DateParser → Fields → Result Device → Exec DepSession (Unit {0})
unfolding add_device change_device
store_found parse device (ok d) = change_device parse device d
store_found parse device (err no_result_found) = add_device parse device
store_found parse device (err e) = raise e

-- One device of a page.
unfoldable pub store_device : DateParser → Fields → Exec DepSession (Unit {0})
unfolding contains item operation_of one has_serial store_found
store_device parse device = do
  if contains "op_type" device
      then (do op ← lift (item "op_type" device); lift (operation_of op))
      else pure tt
  serial ← lift (item "serial_number" device)
  found ← gets (λ s. one (keep (has_serial serial) s.working.db.devices))
  store_found parse device found

unfoldable pub store_items : DateParser → Items → Exec DepSession (Unit {0})
unfolding store_device
store_items parse nil = pure tt
store_items parse (cons (dict device) items) = store_device parse device >> store_items parse items
store_items parse (cons v items) = raise type_error

unfoldable pub store_devices : DateParser → Value → Exec DepSession (Unit {0})
unfolding store_items
store_devices parse (arr items) = store_items parse items
store_devices parse v = raise type_error

-- The account as a page leaves it.
unfoldable pub advanced : Fields → ℕ → DepAccount → DepAccount
unfolding get_or
advanced page t a = record a {
  cursor = get_or "cursor" null page;
  more_to_follow = get_or "more_to_follow" null page;
  fetched_until = some t;
}

-- One round of the loop over the pages.
unfoldable pub store_page : DateParser → DepAccount → Fields → Exec DepSession DepAccount
unfolding item store_devices put_account advanced
store_page parse a page = do
  devices ← lift (item "devices" page)
  store_devices parse devices
  lift (item "cursor" page)
  until ← lift (item "fetched_until" page)
  t ← lift (parse until)
  put_account (advanced page t a)
  commit_tables
  pure (advanced page t a)

-- DEP.devices: the class of the cursor, and its results.
unfoldable pub devices : Value → (Service → Option Fields → Exec Dep Fields) × Option Fields
unfolding next_fetch next_sync sync_cursor
devices null = (next_fetch, none)
devices (text c) = (next_sync, sync_cursor c)
devices v = (next_sync, some (field "cursor" v (field "more_to_follow" (flag true) end)))

abbrev pub page_or_end : Result Fields → (Fields → Exec DepSession Bool) → Exec DepSession Bool
page_or_end (ok page) next = next page
page_or_end (err stop_iteration) next = pure true
page_or_end (err e) next = raise e

-- `for device_page in …`, at most n rounds: false where they do not end it.
unfoldable pub for_pages :
    DateParser
    → (Option Fields → Exec Dep Fields)
    → ℕ
    → DepAccount
    → Option Fields
    → Exec DepSession Bool
unfolding store_page
for_pages parse next zero a results s = (ok false, s)
for_pages parse next (suc n) a results s =
    let (r, client) = next results s.client in
    page_or_end r (λ page. store_page parse a page >>= λ a'. for_pages parse next n a' (some page))
      (record s { client = client })

unfoldable pub dep_fetch_devices : DateParser → Service → ℕ → Exec DepSession Bool
unfolding one devices for_pages
dep_fetch_devices parse service n = do
  new_session
  accounts ← gets (λ s. s.working.accounts)
  a ← lift (one accounts)
  let (next, results) = devices a.cursor in for_pages parse (next service) n a results
