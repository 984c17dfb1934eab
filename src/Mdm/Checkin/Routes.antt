-- ===== src/Mdm/Checkin/Routes.antt =====
-- The router of the check-in messages, PlistRouter of commandment/mdm/routers.py, and the whole
-- request.
use commandment.Base.{String, Bool, false, Option, none, some, List, [], ◌∷◌, str_eq, if◌then◌else◌}
use commandment.Python.Values.{Value, text, Fields, get}
use commandment.Python.Exec.{http, Result, err, Exec, raise}
use commandment.Store.Rows.{Db}
use commandment.Store.Session.{Session, begin}
use commandment.Apns.Push.{Apns}
use commandment.Pki.{X509}
use commandment.Mdm.Queue.{Services}
use commandment.Mdm.Endpoint.{Reply}
use commandment.Mdm.Checkin.{Biplist, authenticate, token_update, user_authenticate, check_out}

-- One entry of PlistRouter.kv_routes.
pub record Route : Type 0 where
  pub key : String
  pub value : String
  pub handler : Fields → Exec Session Reply

abbrev pub is_text : String → Option Value → Bool
is_text s (some (text t)) = str_eq t s
is_text s _ = false

-- The loop of PlistRouter.view: the first route whose key has its value.
unfoldable pub view : List Route → Fields → Exec Session Reply
view [] message = raise (http 404)
view (r ∷ rs) message =
    if is_text r.value (get r.key message) then r.handler message else view rs message

unfoldable pub checkin_routes : Services → Apns → Biplist → Option (List X509) → List Route
unfolding authenticate token_update user_authenticate check_out
checkin_routes services apns biplist signers =
    record { key = "MessageType"; value = "Authenticate"; handler = authenticate services }
    ∷ record {
      key = "MessageType";
      value = "TokenUpdate";
      handler = token_update services apns biplist signers;
    }
    ∷ record { key = "MessageType"; value = "UserAuthenticate"; handler = user_authenticate }
    ∷ record { key = "MessageType"; value = "CheckOut"; handler = check_out services }
    ∷ []

-- PUT /checkin, from the parsed body; none where biplist could not read it.
unfoldable pub serve_checkin :
    Services → Apns → Biplist → Option (List X509) → Option Fields → Db → Result Reply × Db
unfolding view checkin_routes begin
serve_checkin services apns biplist signers none db = (err (http 400), db)
serve_checkin services apns biplist signers (some message) db =
    let (r, s) = view (checkin_routes services apns biplist signers) message (begin db) in
    (r, s.stored)
