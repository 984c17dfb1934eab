-- ===== src/Mdm/Endpoint/Delivery.antt =====
-- What an Idle poll of the MDM endpoint does to the queue of the device.
pub mod Drain
use commandment.Base.{
  ℕ, ◌≡◌, refl, ap, ◌∙◌, Bool, true, false, none, some, List, [], ◌∷◌, map, arith, keep,
}
use commandment.Python.Values.{Value, text, Fields, end, field, get, contains}
use commandment.Python.Exec.{Exn, http, Result, ok, err}
use commandment.Store.Rows.{Device, CommandRow, Db}
use commandment.Store.Session.{
  Session, begin, commit, one, save, device_key, command_key, put_command,
}
use commandment.Mdm.Enums.{status_of_value, sent}
use commandment.Mdm.Commands.{Command, to_dict}
use commandment.Mdm.Commands.Registry.{new_request_type}
use commandment.Mdm.Queue.{Services, next_command}
use commandment.Mdm.Endpoint.{
  Reply, body, Handle, plistify, is_device, find_device, deliver, offer, poll, respond, route, mdm,
  serve,
}

abbrev pub idle_message : Value → Fields
idle_message udid = field "UDID" udid (field "Status" (text "Idle") end)

-- The device row and the tables once the poll is noted.
abbrev pub seen : Services → Device → Device
seen services d = record d { last_seen = some services.utcnow }

abbrev pub noted : Services → Device → Db → Db
noted services d db = record db { devices = save device_key (seen services d) db.devices }

abbrev pub sent_row : Services → CommandRow → CommandRow
sent_row services row = record row { status = sent; sent_at = some services.utcnow }

module _ (services : Services) (handle : Handle) (udid : Value) (d : Device) (db : Db)
    (found : keep (is_device udid) db.devices ≡ d ∷ []) where
  -- An Idle poll of a known device notes the time and goes on to its queue.
  pub serve-idle : serve services handle (some (idle_message udid)) db ≡ (
      let (r, s) =
        poll services
          (seen services d)
          (record { stored = noted services d db; working = noted services d db; draws = 0 }) in
      (r, s.stored))
  unfolding serve mdm status_of_value get contains
  serve-idle = rw (found, find_device, one) refl

  -- With nothing queued the reply is empty and the queue stays.
  pub serve-idle_empty :
      next_command d.id db.commands ≡ none
      → serve services handle (some (idle_message udid)) db ≡ (ok (body ""), noted services d db)
  unfolding poll
  serve-idle_empty empty = rw (serve-idle, empty) refl

  module _ (row : CommandRow) (next : next_command d.id db.commands ≡ some row) where
    -- Where one device row has the UDID and the next command of the device can be built and turned
    -- into a dictionary, an Idle poll stores it as sent whatever plistify then does with the
    -- dictionary, so a command whose plist cannot be written is lost to the queue.
    pub serve-idle_deliver :
        (cmd : Command) (output : Fields)
        → new_request_type row.request_type row.parameters row.uuid ≡ ok cmd
        → to_dict services.codec cmd ≡ ok output
        → serve services handle (some (idle_message udid)) db ≡ (
          plistify output,
          record (noted services d db) {
            commands = save command_key (sent_row services row) db.commands;
          },
        )
    unfolding poll
    serve-idle_deliver cmd output built written = rw (serve-idle, next, built, written) refl
