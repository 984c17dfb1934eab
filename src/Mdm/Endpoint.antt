-- ===== src/Mdm/Endpoint.antt =====
-- The MDM endpoint: `mdm` of commandment/mdm/app.py with its parse decorator
-- (commandment/decorators.py) and `plistify` (commandment/utils.py). The handlers that the command
-- router finds come as the argument `handle`.
pub mod Delivery
pub mod Sound
use commandment.Base.{
  ℕ, String, ◌≡◌, ap, Bool, true, false, ◌&&◌, Option, none, some, List, [], ◌∷◌, keep,
  if◌then◌else◌,
}
use commandment.Python.Values.{
  Value, null, text, num, negsuc, flag, blob, arr, dict, Items, nil, cons, Fields, end, field, get,
  contains, sql_eq,
}
use commandment.Python.Exec.{
  Exn, http, key_error, value_error, type_error, no_result_found, Result, ok, err, Exec, pure,
  raise, lift, gets, or_raise, ◌>>=◌, ◌>>◌,
}
use commandment.Store.Rows.{Device, CommandRow, Db}
use commandment.Store.Session.{Session, begin, commit, one, put_device, put_command}
use commandment.Mdm.Enums.{CommandStatus, status_of_value, is_idle, sent}
use commandment.Mdm.Commands.{Command, to_dict}
use commandment.Mdm.Commands.Registry.{new_request_type}
use commandment.Mdm.Queue.{Services, find_by_uuid, next_command}

-- The body of a reply: text, or a dictionary as a plist.
pub data Reply : Type 0 where
  body : String → Reply
  plist : Fields → Reply

abbrev pub Handle : Type 0
Handle = CommandRow → Device → Fields → Exec Session (Unit {0})

-- plistlib.dumps raises a TypeError at a None, however deep.
unfoldable mutual
  has_none : Value → Bool
  has_none null = true
  has_none (arr xs) = items_have_none xs
  has_none (dict d) = fields_have_none d
  has_none (text s) = false
  has_none (num n) = false
  has_none (negsuc n) = false
  has_none (flag b) = false
  has_none (blob b) = false

  items_have_none : Items → Bool
  items_have_none nil = false
  items_have_none (cons v xs) = if has_none v then true else items_have_none xs

  pub fields_have_none : Fields → Bool
  fields_have_none end = false
  fields_have_none (field k v d) = if has_none v then true else fields_have_none d

unfoldable pub plistify : Fields → Result Reply
plistify d = if fields_have_none d then err type_error else ok (plist d)

-- plist[k]
unfoldable pub item : String → Fields → Result Value
item k d = or_raise (get k d) (key_error k)

pub item-some : (k : String) (d : Fields) (v : Value) → get k d ≡ some v → item k d ≡ ok v
unfolding item
item-some k d v e = ap (λ o. or_raise o (key_error k)) e

unfoldable pub is_device : Value → Device → Bool
is_device udid d = sql_eq d.udid udid

abbrev pub with_device : Result Device → Exn → Result Device
with_device (ok d) e = ok d
with_device (err no_result_found) e = err e
with_device (err f) e = err f

-- query(Device).filter(Device.udid == udid).one(), with `e` in place of NoResultFound
unfoldable pub find_device : Value → Exn → Exec Session Device
unfolding one is_device
find_device udid e s = (with_device (one (keep (is_device udid) s.working.devices)) e, s)

pub find_device-found :
    (udid : Value) (e : Exn) (s : Session) (d : Device)
    → keep (is_device udid) s.working.devices ≡ d ∷ []
    → find_device udid e s ≡ (ok d, s)
unfolding find_device
find_device-found udid e s d found = ap (λ ds. (with_device (one ds) e, s)) found

-- CommandStatus(plist['Status'])
abbrev pub status_of : Value → Result CommandStatus
status_of (text t) = elim (status_of_value t) [ none ↦ err value_error | some status ↦ ok status ]
status_of _ = err value_error

abbrev pub settle : Result (Unit {0}) → Result (Unit {0})
settle (err no_result_found) = ok tt
settle r = r

-- `except NoResultFound`, which logs and goes on
abbrev pub ignore_no_result : Exec Session (Unit {0}) → Exec Session (Unit {0})
ignore_no_result m s = let (r, s') = m s in (settle r, s')

abbrev pub as_uuid : Value → Result String
as_uuid (text t) = ok t
as_uuid _ = err value_error

-- The device answers an earlier command.
unfoldable pub acknowledge :
    Services → Handle → Device → CommandStatus → Fields → Exec Session (Unit {0})
unfolding find_by_uuid put_command commit item
acknowledge services handle device status message =
    if contains "CommandUUID" message
    then ignore_no_result (do
      uuid ← lift (item "CommandUUID" message)
      name ← lift (as_uuid uuid)
      row ← find_by_uuid services name
      let answered = record row { status = status; acknowledged_at = some services.utcnow }
      put_command answered
      commit
      handle answered device message)
    else raise (http 400)

-- The next command is built, marked as sent, and only then written as a plist.
unfoldable pub deliver : Services → CommandRow → Exec Session Reply
unfolding put_command commit
deliver services row = do
  cmd ← lift (new_request_type row.request_type row.parameters row.uuid)
  output ← lift (to_dict services.codec cmd)
  put_command (record row { status = sent; sent_at = some services.utcnow })
  commit
  lift (plistify output)

abbrev pub offer : Services → Option CommandRow → Exec Session Reply
offer services none = pure (body "")
offer services (some row) = deliver services row

unfoldable pub poll : Services → Device → Exec Session Reply
unfolding deliver
poll services device = do
  row ← gets (λ s. next_command device.id s.working.commands)
  offer services row

-- `if status != CommandStatus.Idle`
unfoldable pub answer :
    Services → Handle → Device → CommandStatus → Fields → Exec Session (Unit {0})
unfolding acknowledge
answer services handle device status message =
    if is_idle status then pure tt else acknowledge services handle device status message

-- What follows the checks of the request.
unfoldable pub respond : Services → Handle → Device → Fields → Exec Session Reply
unfolding item put_device commit answer poll
respond services handle device message = do
  value ← lift (item "Status" message)
  status ← lift (status_of value)
  put_device (record device { last_seen = some services.utcnow })
  commit
  answer services handle (record device { last_seen = some services.utcnow }) status message
  poll services device

-- The user channel is turned away, and a message must have a status.
unfoldable pub route : Services → Handle → Device → Fields → Exec Session Reply
unfolding respond
route services handle device message =
    if contains "UserID" message
    then pure (body "")
    else if contains "Status" message
    then respond services handle device message
    else raise (http 400)

unfoldable pub mdm : Services → Handle → Fields → Exec Session Reply
unfolding item find_device route
mdm services handle message = do
  udid ← lift (item "UDID" message)
  device ← find_device udid (http 410)
  route services handle device message

-- The whole request, from the parsed body; none where plistlib could not read it.
unfoldable pub serve : Services → Handle → Option Fields → Db → Result Reply × Db
unfolding mdm begin
serve services handle none db = (err (http 400), db)
serve services handle (some message) db =
    let (r, s) = mdm services handle message (begin db) in (r, s.stored)
