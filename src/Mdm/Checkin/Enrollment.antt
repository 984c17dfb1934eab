-- ===== src/Mdm/Checkin/Enrollment.antt =====
-- The life of an enrollment: what the check-in messages make of the columns of the device, and what
-- a first contact puts into the queue.
use mathlib.Core.List.{append_assoc, map-append}
use commandment.Base.{ℕ, String, ◌≡◌, refl, Option, some, List, [], ◌∷◌, ◌++◌, map, if◌then◌else◌}
use commandment.Python.Values.{contains, truthy}
use commandment.Python.Exec.{ok, err, Result, Exec, Result}
use commandment.Python.Spec.{Spec}
use commandment.Store.Rows.{Device, DeviceIdentityCertificate, CommandRow}
use commandment.Store.Session.{Session}
use commandment.Apns.Push.{Apns}
use commandment.Mdm.Enums.{CommandStatus, queued}
use commandment.Mdm.Commands.{construct, init_attrs, request_type}
use commandment.Pki.{X509}
use commandment.Mdm.Queue.{Services, queue_full_inventory}
use commandment.Mdm.Checkin.{identity}

-- What a row of the queue was added as.
abbrev pub Added : Type 0
Added = String × Option ℕ × CommandStatus

abbrev pub added : CommandRow → Added
added c = (c.request_type, c.device_id, c.status)

abbrev pub inventory : Device → List Added
inventory d =
    ("DeviceInformation", some d.id, queued)
    ∷ ("InstalledApplicationList", some d.id, queued)
    ∷ ("CertificateList", some d.id, queued)
    ∷ ("SecurityInfo", some d.id, queued)
    ∷ ("ProfileList", some d.id, queued)
    ∷ ("AvailableOSUpdates", some d.id, queued)
    ∷ []

-- The six inventory commands are stored behind what is queued, in this order.
pub queue_full_inventory-commands :
    (services : Services) (d : Device) (s : Session)
    → let (r, s') = queue_full_inventory services d s in
      (s'.stored.commands ≡ s'.working.commands)
      × (map added s'.working.commands ≡ map added s.working.commands ++ inventory d)
unfolding queue_full_inventory construct init_attrs contains request_type
queue_full_inventory-commands services d s = (refl, simp (map-append, append_assoc))

-- Both the stored and the working queue have been added to by `more`.
abbrev Grown : List CommandRow → List Added → Session → Type 0
Grown before more s =
    (s.stored.commands ≡ s.working.commands)
    × (map added s.working.commands ≡ map added before ++ more)

abbrev pub made : Device → Result (Option DeviceIdentityCertificate) → List Added
made d (ok c) = inventory d
made d (err e) = []

-- What a TokenUpdate adds to the queue, by the certificates that the database has.
abbrev pub new_commands : Option (List X509) → List DeviceIdentityCertificate → Device → List Added
new_commands signers certificates d =
    if truthy d.token then [] else made d (identity signers certificates)

module _ (before : List CommandRow) where
  abbrev IsGrown : {A : Type 0} → List Added → Exec Session A → Type 0
  IsGrown more m = Spec (Grown before more) m (λ _. Grown before more) (Grown before more)

  -- The certificates are what the session begins with.
  abbrev Begun : List DeviceIdentityCertificate → Session → Type 0
  Begun certificates s = Grown before [] s × (s.working.certificates ≡ certificates)
