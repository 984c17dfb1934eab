-- ===== src/Mdm/Handlers.antt =====
-- The response handlers of commandment/mdm/handlers.py that keep the profiles of a device in step
-- with its tags. What the marshmallow schema of a response makes of the message is an argument.
pub mod Profiles
pub mod Responses
pub mod Router
pub mod Information
pub mod Applications
pub mod Inventory
pub mod Managed
pub mod Sound
pub mod Kept
use commandment.Base.{
  ℕ, String, Bool, true, false, not, ◌&&◌, ◌==◌, Option, none, some, List, [], ◌∷◌, ◌++◌, map, keep,
  any, str_eq, if◌then◌else◌,
}
use commandment.Python.Values.{Value, text, Fields, end, field, truthy, get_or, null}
use commandment.Python.Exec.{Result, ok, err, key_error, Exec, pure, lift, or_raise, ◌>>=◌, ◌>>◌}
use commandment.Store.Rows.{Device, Tag, Profile, InstalledProfile, InstalledPayload, Db}
use commandment.Store.Session.{Session, commit, change}
use commandment.Mdm.Commands.{install_profile_of, remove_profile, construct}
use commandment.Mdm.Queue.{Services, draw_uuid, enqueue}

-- schema.load(response).data['ProfileList'], none where the key is missing
abbrev pub LoadProfiles : Type 0
LoadProfiles = Fields → Option (List InstalledProfile)

abbrev pub belongs_to : ℕ → Option ℕ → Bool
belongs_to d none = false
belongs_to d (some e) = e == d

-- The deletion of device.installed_payloads and of device.installed_profiles.
unfoldable pub forget_profiles : Device → Db → Db
forget_profiles d db = record db {
  installed_payloads = keep (λ p. not (belongs_to d.id p.device_id)) db.installed_payloads;
  installed_profiles = keep (λ p. not (belongs_to d.id p.device_id)) db.installed_profiles;
}

abbrev claim_payload : Device → InstalledPayload → InstalledPayload
claim_payload d p = record p { device_id = some d.id }

-- The columns that the loop sets on a reported profile and on its payloads.
unfoldable pub claim_profile : Device → InstalledProfile → InstalledProfile
claim_profile d p = record p {
  device_id = some d.id;
  device_udid = d.udid;
  payload_content = map (claim_payload d) p.payload_content;
}

unfoldable pub add_profiles : Device → List InstalledProfile → Db → Db
unfolding claim_profile
add_profiles d [] db = db
add_profiles d (p ∷ ps) db = add_profiles d ps (record db {
  installed_profiles = db.installed_profiles ++ claim_profile d p ∷ [];
  installed_payloads = db.installed_payloads ++ (claim_profile d p).payload_content;
})

-- desired_profiles[p.uuid] = p
unfoldable pub assign : Profile → List Profile → List Profile
assign p [] = p ∷ []
assign p (q ∷ qs) = if str_eq q.uuid p.uuid then p ∷ qs else q ∷ assign p qs

abbrev assign_all : List Profile → List Profile → List Profile
unfolding assign
assign_all [] desired = desired
assign_all (p ∷ ps) desired = assign_all ps (assign p desired)

unfoldable pub desired_from : List Tag → List Profile → List Profile
unfolding assign
desired_from [] desired = desired
desired_from (t ∷ ts) desired = desired_from ts (assign_all t.profiles desired)

-- Whether a key of desired_profiles is the UUID, which a reported profile may lack.
abbrev pub has_uuid : Option String → Profile → Bool
has_uuid none p = false
has_uuid (some uuid) p = str_eq p.uuid uuid

-- profile.payload_uuid in desired_profiles
unfoldable pub is_desired : Option String → List Profile → Bool
is_desired uuid desired = any (has_uuid uuid) desired

-- del desired_profiles[uuid]
unfoldable pub undesire : Option String → List Profile → List Profile
undesire uuid desired = keep (λ p. not (has_uuid uuid p)) desired

-- What the loop over the reported profiles leaves desired, and what it collects for removal.
unfoldable pub reconcile :
    List InstalledProfile → List Profile → List Profile × List InstalledProfile
unfolding is_desired undesire
reconcile [] desired = (desired, [])
reconcile (q ∷ qs) desired =
    if is_desired q.payload_uuid desired
    then reconcile qs (undesire q.payload_uuid desired)
    else (let (left, removed) = reconcile qs desired in
        (left, if truthy q.is_managed then q ∷ removed else removed))

unfoldable pub enqueue_installs : Services → ℕ → List Profile → Exec Session (Unit {0})
unfolding draw_uuid install_profile_of enqueue
enqueue_installs services d [] = pure tt
enqueue_installs services d (p ∷ ps) = do
  uuid ← draw_uuid services
  enqueue (install_profile_of services.codec uuid p.contents) d
  enqueue_installs services d ps

unfoldable pub enqueue_removals : Services → ℕ → List InstalledProfile → Exec Session (Unit {0})
unfolding draw_uuid construct enqueue
enqueue_removals services d [] = pure tt
enqueue_removals services d (q ∷ qs) = do
  uuid ← draw_uuid services
  cmd ← lift (construct remove_profile uuid (field "Identifier" q.payload_identifier end))
  enqueue cmd d
  enqueue_removals services d qs

-- ack_profile_list
unfoldable pub ack_profile_list :
    Services → LoadProfiles → Device → Fields → Exec Session (Unit {0})
unfolding forget_profiles add_profiles desired_from reconcile enqueue_installs enqueue_removals
    commit
ack_profile_list services load d response = do
  change (forget_profiles d)
  reported ← lift (or_raise (load response) (key_error "ProfileList"))
  change (add_profiles d reported)
  enqueue_installs services d.id (reconcile reported (desired_from d.tags [])).0
  enqueue_removals services d.id (reconcile reported (desired_from d.tags [])).1
  commit
