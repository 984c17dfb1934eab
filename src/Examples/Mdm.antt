-- ===== src/Examples/Mdm.antt =====
-- A phone with two queued commands, and the messages that it sends.
use commandment.Base.{
  ℕ, ◌≡◌, refl, String, false, none, some, List, [], ◌∷◌, map, keep, length, All, arith,
  if◌then◌else◌, ◌==◌,
}
use commandment.Python.Values.{null, text, dict, put, update, Fields, end, field, contains}
use commandment.Python.Exec.{ok, err, value_error}
use commandment.Store.Rows.{Device, CommandRow, Db}
use commandment.Store.Session.{save, command_key}
use commandment.Apns.Push.{Apns}
use commandment.Mdm.Enums.{queued}
use commandment.Mdm.Commands.{
  Command, CommandClass, request_type, construct, security_info, profile_list, device_lock,
  init_attrs, to_dict, install_application_of,
}
use commandment.Mdm.Commands.Registry.{new_request_type, find_class, find_class_exact}
use commandment.Mdm.Commands.Rehydrate.{Made, from_values, new_request_type_roundtrip}
use commandment.Mdm.Queue.{Services, is_pending, next_command}
use commandment.Mdm.Queue.Oldest.{
  IsOldest, next_command-IsOldest, with_schedule, next_command-with_schedule,
}
use commandment.Mdm.Endpoint.{Handle, is_device, serve, plistify, fields_have_none}
use commandment.Mdm.Endpoint.Delivery.{idle_message, noted, sent_row, serve-idle_deliver}
use commandment.Mdm.Endpoint.Delivery.Drain.{
  IsKnown, QueueBuilds, IsPlist, pending, idle_polls, idle_polls_drain,
}
use commandment.Mdm.Checkin.{Biplist}

abbrev pub services : Services
services = record {
  codec = record {
    b64encode = λ bytes. "UGF5bG9hZA==";
    b64decode = λ s. some (80 ∷ 97 ∷ []);
    b64decode_bytes = some;
  };
  now = 1100;
  utcnow = 1000;
  uuid4 = λ n. if n == 0 then "7f01" else "7f02";
  canonical_uuid = some;
}

abbrev handle : Handle
handle row d message s = (ok tt, s)

abbrev pub apns : Apns
apns = ok tt

abbrev pub biplist : Biplist
biplist = record { is_data = λ v. false; data_encode = err value_error }

abbrev pub phone : Device
phone = record {
  id = 1;
  udid = text "U1";
  last_seen = none;
  is_enrolled = false;
  topic = text "com.example.mdm";
  push_magic = null;
  token = null;
  unlock_token = null;
  tokenupdate_at = none;
  last_push_at = none;
  last_apns_id = null;
  build_version = null;
  device_name = text "Phone";
  model = null;
  model_name = text "iPhone";
  os_version = null;
  product_name = null;
  serial_number = text "S1";
  imei = null;
  meid = null;
  certificate = none;
  other = end;
  tags = [];
}

abbrev pub queued_row : ℕ → String → Fields → CommandRow
queued_row id name parameters = record {
  id = id;
  request_type = name;
  uuid = "7f01";
  parameters = parameters;
  status = queued;
  sent_at = none;
  acknowledged_at = none;
  after = none;
  ttl = 5;
  device_id = some 1;
}

abbrev pub tables : List CommandRow → Db
tables commands = record {
  devices = phone ∷ [];
  next_device_id = 2;
  commands = commands;
  next_command_id = 9;
  certificates = [];
  installed_profiles = [];
  installed_payloads = [];
  managed_applications = [];
  next_managed_id = 1;
  installed_certificates = [];
  installed_applications = [];
  available_os_updates = [];
}

abbrev pub two_queued : Db
two_queued = tables (queued_row 7 "ProfileList" end ∷ queued_row 4 "SecurityInfo" end ∷ [])

two_queued-IsKnown : IsKnown (text "U1") phone two_queued
unfolding is_device
two_queued-IsKnown = record {
  found = refl;
  device_keys = (tt, tt);
  command_keys = ((λ e. omega arith, tt), (tt, tt));
}

abbrev plain : CommandClass → Command
plain c = record { class = c; uuid = "7f01"; attrs = end }

abbrev plain_output : String → Fields
plain_output name =
    field "CommandUUID" (text "7f01")
      (field "Command" (dict (field "RequestType" (text name) end)) end)

two_queued-QueueBuilds : QueueBuilds services 1 two_queued.commands
unfolding new_request_type find_class construct init_attrs contains to_dict request_type
    fields_have_none
two_queued-QueueBuilds = (
  λ p. (plain profile_list, plain_output "ProfileList", refl, refl, refl),
  (λ p. (plain security_info, plain_output "SecurityInfo", refl, refl, refl), tt),
)

two_queued-count : length (pending phone two_queued) ≡ 2
unfolding is_pending
two_queued-count = refl

idle_polls_drain_example :
    let (replies, last) = idle_polls services handle (text "U1") 2 two_queued in
    All IsPlist replies × (length (pending phone last) ≡ 0)
idle_polls_drain_example =
    idle_polls_drain services handle (text "U1") 2 phone two_queued two_queued-IsKnown
      two_queued-QueueBuilds two_queued-count

next_command-IsOldest_example : IsOldest 1 two_queued.commands (next_command 1 two_queued.commands)
next_command-IsOldest_example = next_command-IsOldest 1 two_queued.commands

next_command-with_schedule_example :
    next_command 1 (map (with_schedule (some 9999) 0) two_queued.commands)
    ≡ some (with_schedule (some 9999) 0 (queued_row 4 "SecurityInfo" end))
unfolding next_command is_pending
next_command-with_schedule_example = next_command-with_schedule 1 (some 9999) 0 two_queued.commands

find_class_exact_example :
    (find_class "DeviceLock" ≡ some device_lock → request_type device_lock ≡ "DeviceLock")
    × (request_type device_lock ≡ "DeviceLock" → find_class "DeviceLock" ≡ some device_lock)
find_class_exact_example = find_class_exact "DeviceLock" device_lock

abbrev lock_values : Fields
lock_values = field "PIN" (text "123456") (field "Message" (text "Lost") end)

abbrev lock : Command
lock = record { class = device_lock; uuid = "7f01"; attrs = lock_values }

lock-Made : Made lock
unfolding construct init_attrs contains
lock-Made = from_values device_lock "7f01" lock_values lock (refl, (refl, tt)) refl

new_request_type_roundtrip_example : new_request_type "DeviceLock" lock_values "7f01" ≡ ok lock
unfolding request_type
new_request_type_roundtrip_example = new_request_type_roundtrip lock lock-Made

-- A store application without an identifier is queued, and its plist cannot be written.
abbrev nameless : Command
nameless = install_application_of "7f01" null

abbrev nameless_values : Fields
unfolding install_application_of
nameless_values = nameless.attrs

abbrev nameless_row : CommandRow
nameless_row = queued_row 5 "InstallApplication" nameless_values

abbrev nameless_output : Fields
nameless_output =
    field "CommandUUID" (text "7f01")
      (field "Command" (dict (field "RequestType" (text "InstallApplication") nameless_values)) end)

pub one_phone : keep (is_device (text "U1")) (phone ∷ []) ≡ phone ∷ []
unfolding is_device
one_phone = refl

nameless-next : next_command 1 (nameless_row ∷ []) ≡ some nameless_row
unfolding next_command is_pending
nameless-next = refl

nameless-built : new_request_type "InstallApplication" nameless_values "7f01" ≡ ok nameless
unfolding new_request_type find_class construct init_attrs contains install_application_of
    request_type update put
nameless-built = refl

nameless-written : to_dict services.codec nameless ≡ ok nameless_output
unfolding to_dict install_application_of request_type update put
nameless-written = refl

serve-idle_deliver_example :
    serve services handle (some (idle_message (text "U1"))) (tables (nameless_row ∷ [])) ≡ (
      plistify nameless_output,
      record (noted services phone (tables (nameless_row ∷ []))) {
        commands = save command_key (sent_row services nameless_row) (nameless_row ∷ []);
      },
    )
serve-idle_deliver_example =
    serve-idle_deliver services handle (text "U1") phone (tables (nameless_row ∷ [])) one_phone
      nameless_row nameless-next nameless nameless_output nameless-built nameless-written
