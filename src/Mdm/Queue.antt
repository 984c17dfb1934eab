-- ===== src/Mdm/Queue.antt =====
-- The command queue: the class methods of Command in commandment/models.py, and
-- queue_full_inventory of commandment/mdm/util.py. The clock, `uuid4` and `uuid.UUID` of Python's
-- library come as `Services`; the instants that one request reads are taken as one.
pub mod Oldest
use commandment.Base.{
  ℕ, suc, ◌+◌, String, Bool, true, false, ◌&&◌, Option, none, some, List, [], ◌∷◌, ◌++◌, keep, ltb,
  str_eq, ◌==◌, if◌then◌else◌,
}
use commandment.Python.Values.{Value, text, Fields, end}
use commandment.Python.Exec.{Result, ok, err, Exec, pure, lift, gets, ◌>>=◌, ◌>>◌, value_error}
use commandment.Store.Rows.{Device, CommandRow, Db}
use commandment.Store.Session.{Session, commit, one, change}
use commandment.Mdm.Enums.{Platform, CommandStatus, queued, is_queued}
use commandment.Mdm.Commands.{
  CommandClass, Command, Codec, request_type, construct, installed_application_list,
  certificate_list, security_info, profile_list, available_os_updates,
}
use commandment.Mdm.Commands.Queries.{for_platform}

pub record Services : Type 0 where
  pub codec : Codec
  -- datetime.now() and datetime.utcnow()
  pub now : ℕ
  pub utcnow : ℕ
  -- the UUIDs that uuid4() draws, in order
  pub uuid4 : ℕ → String
  -- str(uuid.UUID(text)), none where it is a ValueError
  pub canonical_uuid : String → Option String

-- Command.from_model, with the device set and the column defaults of a new row.
unfoldable pub from_model : Command → ℕ → ℕ → CommandRow
from_model cmd device_id id = record {
  id = id;
  request_type = request_type cmd.class;
  uuid = cmd.uuid;
  parameters = cmd.attrs;
  status = queued;
  sent_at = none;
  acknowledged_at = none;
  after = none;
  ttl = 5;
  device_id = some device_id;
}

-- dbc = Command.from_model(c); dbc.device = device; db.session.add(dbc)
unfoldable pub enqueue_row : Command → ℕ → Db → Db
unfolding from_model
enqueue_row cmd device_id db = record db {
  commands = db.commands ++ from_model cmd device_id db.next_command_id ∷ [];
  next_command_id = suc db.next_command_id;
}

unfoldable pub enqueue : Command → ℕ → Exec Session (Unit {0})
unfolding enqueue_row
enqueue cmd device_id = change (enqueue_row cmd device_id)

unfoldable pub draw_uuid : Services → Exec Session String
draw_uuid services s = (ok (services.uuid4 s.draws), record s { draws = suc s.draws })

abbrev pub row_of_uuid : Option String → Exec Session CommandRow
row_of_uuid none s = (err value_error, s)
row_of_uuid (some uuid) s = (one (keep (λ c. str_eq c.uuid uuid) s.working.commands), s)

-- Command.find_by_uuid
unfoldable pub find_by_uuid : Services → String → Exec Session CommandRow
unfolding one
find_by_uuid services uuid = row_of_uuid (services.canonical_uuid uuid)

abbrev owned_by : ℕ → Option ℕ → Bool
owned_by d none = false
owned_by d (some e) = e == d

-- cls.device == device and cls.status == Queued
unfoldable pub is_pending : ℕ → CommandRow → Bool
is_pending device_id c = owned_by device_id c.device_id && is_queued c.status

abbrev pub older : CommandRow → Option CommandRow → CommandRow
older c none = c
older c (some q) = if ltb q.id c.id then q else c

-- order_by(cls.id).first()
unfoldable pub first_by_id : List CommandRow → Option CommandRow
first_by_id [] = none
first_by_id (c ∷ cs) = some (older c (first_by_id cs))

-- Command.next_command
unfoldable pub next_command : ℕ → List CommandRow → Option CommandRow
unfolding first_by_id is_pending
next_command device_id rows = first_by_id (keep (is_pending device_id) rows)

abbrev is_one_of : Value → List String → Bool
is_one_of v [] = false
is_one_of (text s) (x ∷ xs) = if str_eq s x then true else is_one_of (text s) xs
is_one_of v (x ∷ xs) = false

-- Device.platform
unfoldable pub platform_of : Device → Platform
platform_of d =
    if is_one_of d.model_name ("iMac" ∷ "MacBook Pro" ∷ "MacBook Air" ∷ "Mac Pro" ∷ [])
    then Platform.macos
    else if is_one_of d.model_name ("iPhone" ∷ "iPad" ∷ [])
    then Platform.ios
    else Platform.unknown

-- A command class with no argument: klass(), from_model, device, add.
unfoldable pub enqueue_plain : Services → CommandClass → ℕ → Exec Session (Unit {0})
unfolding draw_uuid construct enqueue
enqueue_plain services c device_id = do
  uuid ← draw_uuid services
  cmd ← lift (construct c uuid end)
  enqueue cmd device_id

-- queue_full_inventory
unfoldable pub queue_full_inventory : Services → Device → Exec Session (Unit {0})
unfolding draw_uuid for_platform enqueue enqueue_plain platform_of commit
queue_full_inventory services d = do
  uuid ← draw_uuid services
  enqueue (for_platform uuid (platform_of d) none) d.id
  enqueue_plain services installed_application_list d.id
  enqueue_plain services certificate_list d.id
  enqueue_plain services security_info d.id
  enqueue_plain services profile_list d.id
  enqueue_plain services available_os_updates d.id
  commit
