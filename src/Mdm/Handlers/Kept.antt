-- ===== src/Mdm/Handlers/Kept.antt =====
-- ack_profile_list of commandment/mdm/handlers.py keeps the invariant of the tables.
use commandment.Base.{ℕ, ◌≡◌, refl, List, [], ◌∷◌}
use commandment.Python.Values.{Fields, end, field}
use commandment.Python.Exec.{Result, key_error, lift, or_raise}
use commandment.Store.Rows.{Device, Profile, InstalledProfile, Db}
use commandment.Store.Session.{change}
use commandment.Store.Tables.{IsSound}
use commandment.Mdm.Commands.{construct, remove_profile, install_profile_of}
use commandment.Mdm.Queue.{Services, draw_uuid}
use commandment.Mdm.Keeps.{
  Keeps, Keeps-elsewhere, Keeps-change, Keeps-commit, Keeps-lift, Keeps-bind, Keeps-enqueue,
  Keeps-draw_uuid,
}
use commandment.Mdm.Handlers.{
  LoadProfiles, forget_profiles, add_profiles, desired_from, reconcile, enqueue_installs,
  enqueue_removals, ack_profile_list,
}

Keeps-forget_profiles : (d : Device) → Keeps (change (forget_profiles d))
unfolding forget_profiles
Keeps-forget_profiles d = Keeps-elsewhere (forget_profiles d) refl

add_profiles-IsSound :
    (d : Device) (qs : List InstalledProfile) (db : Db)
    → IsSound db
    → IsSound (add_profiles d qs db)
unfolding add_profiles
add_profiles-IsSound d [] db h = h
add_profiles-IsSound d (q ∷ qs) db h = add_profiles-IsSound d qs _ (record {
  device_keys = h.device_keys;
  device_fresh = h.device_fresh;
  udids = h.udids;
  command_keys = h.command_keys;
  command_fresh = h.command_fresh;
})

add_profiles-devices :
    (d : Device) (qs : List InstalledProfile) (db : Db)
    → (add_profiles d qs db).devices ≡ db.devices
unfolding add_profiles
add_profiles-devices d [] db = refl
add_profiles-devices d (q ∷ qs) db = add_profiles-devices d qs _

Keeps-enqueue_installs :
    (services : Services) (d : ℕ) (ps : List Profile) → Keeps (enqueue_installs services d ps)
unfolding enqueue_installs
Keeps-enqueue_installs services d [] = Keeps-lift (Result.ok tt)
Keeps-enqueue_installs services d (p ∷ ps) =
    Keeps-bind (draw_uuid services) _ (Keeps-draw_uuid services) λ uuid.
      Keeps-bind _ _ (Keeps-enqueue (install_profile_of services.codec uuid p.contents) d)
        λ _. Keeps-enqueue_installs services d ps

Keeps-enqueue_removals :
    (services : Services) (d : ℕ) (qs : List InstalledProfile)
    → Keeps (enqueue_removals services d qs)
unfolding enqueue_removals
Keeps-enqueue_removals services d [] = Keeps-lift (Result.ok tt)
Keeps-enqueue_removals services d (q ∷ qs) =
    Keeps-bind (draw_uuid services) _ (Keeps-draw_uuid services) λ uuid.
      Keeps-bind
        (lift (construct remove_profile uuid (field "Identifier" q.payload_identifier end))) _
        (Keeps-lift _)
        λ cmd. Keeps-bind _ _ (Keeps-enqueue cmd d) λ _. Keeps-enqueue_removals services d qs

pub Keeps-ack_profile_list :
    (services : Services) (load : LoadProfiles) (d : Device) (response : Fields)
    → Keeps (ack_profile_list services load d response)
unfolding ack_profile_list
Keeps-ack_profile_list services load d response =
    Keeps-bind (change (forget_profiles d)) _ (Keeps-forget_profiles d) λ _.
      Keeps-bind (lift (or_raise (load response) (key_error "ProfileList"))) _ (Keeps-lift _)
        λ reported.
          Keeps-bind (change (add_profiles d reported)) _
            (Keeps-change (add_profiles d reported) (add_profiles-IsSound d reported)
              (add_profiles-devices d reported))
            λ _.
              Keeps-bind _ _
                (Keeps-enqueue_installs services d.id
                  (reconcile reported (desired_from d.tags [])).0)
                λ _.
                  Keeps-bind _ _
                    (Keeps-enqueue_removals services d.id
                      (reconcile reported (desired_from d.tags [])).1)
                    λ _. Keeps-commit
