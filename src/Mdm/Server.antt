-- ===== src/Mdm/Server.antt =====
-- The life of the server: requests to /checkin and to /mdm and rounds of the push thread, in any order
-- and with any services, from tables that hold nothing.
use commandment.Base.{Option, List, [], arith}
use commandment.Python.Values.{Fields}
use commandment.Store.Rows.{Db}
use commandment.Store.Tables.{IsSound}
use commandment.Apns.Push.{Apns}
use commandment.Apns.Thread.{push_round}
use commandment.Apns.Thread.Outcomes.{push_round-IsSound}
use commandment.Pki.{X509}
use commandment.Mdm.Queue.{Services}
use commandment.Mdm.Endpoint.{serve}
use commandment.Mdm.Endpoint.Sound.{Says, serve-IsSound}
use commandment.Mdm.Handlers.Router.{Loads, OwnUdid, command_router, command_router-HandlesSoundly}
use commandment.Mdm.Checkin.{Biplist}
use commandment.Mdm.Checkin.Routes.{serve_checkin}
use commandment.Mdm.Checkin.Unique.{serve_checkin-IsSound}

abbrev pub no_rows : Db
no_rows = record {
  devices = [];
  next_device_id = 1;
  commands = [];
  next_command_id = 1;
  certificates = [];
  installed_profiles = [];
  installed_payloads = [];
  managed_applications = [];
  next_managed_id = 1;
  installed_certificates = [];
  installed_applications = [];
  available_os_updates = [];
}

-- One request, with its services and whatever it holds, or one round of the push thread. The
-- attributes that an answer to DeviceInformation is loaded to give no other UDID than the device's.
pub data Step : Db → Db → Type 0 where
  checked_in :
      {db : Db} (services : Services) (apns : Apns) (biplist : Biplist)
      (signers : Option (List X509)) (parsed : Option Fields)
      → Step db (serve_checkin services apns biplist signers parsed db).1
  polled :
      {db : Db} (services : Services) (loads : Loads) (parsed : Option Fields)
      → Says (OwnUdid loads.information) parsed
      → Step db (serve services (command_router services loads) parsed db).1
  announced :
      {db : Db} (services : Services) (apns : Apns) → Step db (push_round services apns db).1

pub data Reached : Db → Type 0 where
  created : Reached no_rows
  served : {db db' : Db} → Reached db → Step db db' → Reached db'

-- Whatever a device sends to /mdm, where the attributes that the message is loaded to name no key
-- twice and give each device that its UDID finds no other UDID, the endpoint with the command
-- router and all its handlers leaves stored tables in which the keys are distinct and below the
-- next number and no UDID stands on two device rows, where this holds of the stored tables before.
pub serve-command_router-IsSound :
    (services : Services) (loads : Loads) (parsed : Option Fields) (db : Db)
    → Says (OwnUdid loads.information) parsed
    → IsSound db
    → IsSound (serve services (command_router services loads) parsed db).1
serve-command_router-IsSound services loads =
    serve-IsSound services (command_router services loads) (OwnUdid loads.information)
      (command_router-HandlesSoundly services loads)

Step-IsSound : {db db' : Db} → Step db db' → IsSound db → IsSound db'
Step-IsSound {db = db} (checked_in services apns biplist signers parsed) h =
    serve_checkin-IsSound services apns biplist signers parsed db h
Step-IsSound {db = db} (polled services loads parsed own) h =
    serve-command_router-IsSound services loads parsed db own h
Step-IsSound {db = db} (announced services apns) h = push_round-IsSound services apns db h

no_rows-IsSound : IsSound no_rows
no_rows-IsSound = record {
  device_keys = tt;
  device_fresh = tt;
  udids = λ u. omega arith;
  command_keys = tt;
  command_fresh = tt;
}

-- From tables that hold nothing, after any requests to /checkin and to /mdm and any rounds of the
-- push thread, in any order and with any services, where each message to /mdm is loaded to
-- attributes that name no key twice and give no other UDID to a device that its UDID finds, the
-- keys are distinct and below the next number and no UDID stands on two device rows.
pub Reached-IsSound : {db : Db} → Reached db → IsSound db
Reached-IsSound created = no_rows-IsSound
Reached-IsSound (served r step) = Step-IsSound step (Reached-IsSound r)
