-- ===== src/Apns/Push.antt =====
-- get_apns and push_to_device of commandment/apns/push.py. The module imports names from the modules
-- of apns2 but not the name apns2: get_apns turns the NameError of apns2.APNSClient into a
-- RuntimeError, and the notification would raise it again. What reading PUSH_CERTIFICATE raises
-- before that, or that it raises nothing, is the argument `apns`. The rest of push_to_device and
-- its callers is there for what they would do with an answer.
use commandment.Base.{ℕ, ◌≡◌, arith, some, ◌==◌, if◌then◌else◌}
use commandment.Python.Values.{Value, null}
use commandment.Python.Exec.{
  runtime_error, name_error, Result, ok, err, Exec, lift, ◌>>=◌, ◌>>◌, pure,
}
use commandment.Store.Rows.{Device}
use commandment.Store.Session.{Session, put_device}

pub record PushResponse : Type 0 where
  pub status_code : ℕ
  pub apns_id : Value

abbrev pub Apns : Type 0
Apns = Result (Unit {0})

-- get_apns: `g` of a request or a round holds no client yet.
unfoldable pub get_apns : Apns → Result (Unit {0})
get_apns (err e) = err e
get_apns (ok certificate) = err runtime_error

-- apns2.Notification(payload, …) and client.push(notification, …)
unfoldable pub notify : Value → Value → Value → Result PushResponse
notify magic token topic = err name_error

-- What answers a push, from the client to the response.
unfoldable pub push_answer : Apns → Value → Value → Value → Result PushResponse
unfolding get_apns notify
push_answer apns magic token topic = elim (get_apns apns) [
  | ok client ↦ notify magic token topic
  | err e ↦ err e
]

-- A 410 tells that the token is no longer valid.
unfoldable pub after_push : PushResponse → Device → Device
after_push response d =
    if response.status_code == 410 then record d { token = null; push_magic = null } else d

pub after_push-key :
    (response : PushResponse) (d : Device)
    → ((after_push response d).id ≡ d.id) × ((after_push response d).udid ≡ d.udid)
unfolding after_push
after_push-key response d = ground arith

-- What a caller records of a push.
abbrev pub pushed : ℕ → PushResponse → Device → Device
pushed t response d = record d {
  last_push_at = some t;
  last_apns_id = if response.status_code == 200 then response.apns_id else d.last_apns_id;
}

-- The response, and the device as the call leaves it.
unfoldable pub push_to_device : Apns → Device → Exec Session (PushResponse × Device)
unfolding push_answer after_push put_device
push_to_device apns d = do
  response ← lift (push_answer apns d.push_magic d.token d.topic)
  put_device (after_push response d)
  pure (response, after_push response d)
