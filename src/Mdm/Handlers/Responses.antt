-- ===== src/Mdm/Handlers/Responses.antt =====
-- What a ProfileList response leaves in the queue and in the inventory of profiles.
use mathlib.Core.List.{append_assoc, map-append, append-nil}
use commandment.Base.{
  ℕ, String, ◌≡◌, refl, sym, ap, ◌∙◌, Bool, not, Option, some, List, [], ◌∷◌, ◌++◌, map, keep,
  keep-append, arith,
}
use commandment.Python.Values.{text, Fields, end, field, get_or, get, contains}
use commandment.Python.Exec.{ok, bind-ok, ◌>>◌}
use commandment.Store.Rows.{Device, CommandRow, Profile, InstalledProfile, Db}
use commandment.Store.Session.{Session, commit}
use commandment.Mdm.Enums.{CommandStatus, queued}
use commandment.Mdm.Commands.{Codec, request_type, construct, init_attrs}
use commandment.Mdm.Queue.{Services}
use commandment.Mdm.Handlers.{
  LoadProfiles, belongs_to, forget_profiles, claim_profile, add_profiles, desired_from, reconcile,
  enqueue_installs, enqueue_removals, ack_profile_list,
}
use commandment.Mdm.Handlers.Profiles.{to_install, to_remove, AreDistinct, reconcile-sets}

-- What a row of the queue asks, and whom.
abbrev pub Requested : Type 0
Requested = String × Fields × Option ℕ × CommandStatus

abbrev pub requested : CommandRow → Requested
requested c = (c.request_type, c.parameters, c.device_id, c.status)

abbrev pub install_of : Codec → Device → Profile → Requested
install_of codec d p =
    ("InstallProfile", field "Payload" (text (codec.b64encode p.contents)) end, some d.id, queued)

abbrev pub removal_of : Device → InstalledProfile → Requested
removal_of d q = ("RemoveProfile", field "Identifier" q.payload_identifier end, some d.id, queued)

module _ (services : Services) (d : Device) where
  installs-ok :
      (ps : List Profile) (s : Session)
      → enqueue_installs services d.id ps s ≡ (ok tt, (enqueue_installs services d.id ps s).1)
  unfolding enqueue_installs
  installs-ok [] s = refl
  installs-ok (p ∷ ps) s = installs-ok ps _

  installs-queue :
      (ps : List Profile) (s : Session)
      → let s' = (enqueue_installs services d.id ps s).1 in
        (map requested s'.working.commands
          ≡ map requested s.working.commands ++ map (install_of services.codec d) ps)
        × (s'.working.installed_profiles ≡ s.working.installed_profiles)
  unfolding enqueue_installs request_type
  installs-queue [] s = (sym (append-nil _), refl)
  installs-queue (p ∷ ps) s =
      let (queue, kept) = installs-queue ps _ in (queue ∙ simp (map-append, append_assoc), kept)

  removals-ok :
      (qs : List InstalledProfile) (s : Session)
      → enqueue_removals services d.id qs s ≡ (ok tt, (enqueue_removals services d.id qs s).1)
  unfolding enqueue_removals construct init_attrs contains get_or get
  removals-ok [] s = refl
  removals-ok (q ∷ qs) s = removals-ok qs _

  removals-queue :
      (qs : List InstalledProfile) (s : Session)
      → let s' = (enqueue_removals services d.id qs s).1 in
        (map requested s'.working.commands
          ≡ map requested s.working.commands ++ map (removal_of d) qs)
        × (s'.working.installed_profiles ≡ s.working.installed_profiles)
  unfolding enqueue_removals construct init_attrs contains get_or get request_type
  removals-queue [] s = (sym (append-nil _), refl)
  removals-queue (q ∷ qs) s =
      let (queue, kept) = removals-queue qs _ in (queue ∙ simp (map-append, append_assoc), kept)

  added-profiles :
      (qs : List InstalledProfile) (db : Db)
      → ((add_profiles d qs db).commands ≡ db.commands)
        × ((add_profiles d qs db).installed_profiles
            ≡ db.installed_profiles ++ map (claim_profile d) qs)
  unfolding add_profiles
  added-profiles [] db = (refl, sym (append-nil _))
  added-profiles (q ∷ qs) db =
      let (same, more) = added-profiles qs _ in (same, more ∙ simp append_assoc)

  abbrev own : InstalledProfile → Bool
  own p = belongs_to d.id p.device_id

  forgotten : (ps : List InstalledProfile) → keep own (keep (λ p. not (own p)) ps) ≡ []
  forgotten [] = refl
  forgotten (p ∷ ps) = ground (arith, forgotten ps)

  claimed :
      (qs : List InstalledProfile) → keep own (map (claim_profile d) qs) ≡ map (claim_profile d) qs
  unfolding claim_profile
  claimed [] = refl
  claimed (q ∷ qs) = ground (arith, claimed qs)

  module _ (load : LoadProfiles) (response : Fields) (reported : List InstalledProfile)
      (s : Session) (loaded : load response ≡ some reported) where
    abbrev left : List Profile × List InstalledProfile
    left = reconcile reported (desired_from d.tags [])

    abbrev recorded : Session
    recorded = record s { working = add_profiles d reported (forget_profiles d s.working) }

    abbrev installing : Session
    installing = (enqueue_installs services d.id left.0 recorded).1

    abbrev removing : Session
    removing = (enqueue_removals services d.id left.1 installing).1

    ack_profile_list-ends :
        ack_profile_list services load d response s
        ≡ (ok tt, record removing { stored = removing.working })
    unfolding ack_profile_list commit
    ack_profile_list-ends = rw loaded (
        bind-ok (enqueue_installs services d.id left.0)
          (λ _. enqueue_removals services d.id left.1 >> commit) recorded installing tt
          (installs-ok left.0 recorded)
        ∙ bind-ok (enqueue_removals services d.id left.1) (λ _. commit) installing removing tt
            (removals-ok left.1 installing))

    stored-queue :
        AreDistinct reported
        → map requested removing.working.commands
          ≡ map requested s.working.commands
            ++ map (install_of services.codec d) (to_install reported (desired_from d.tags []))
            ++ map (removal_of d) (to_remove reported (desired_from d.tags []))
    unfolding forget_profiles
    stored-queue distinct =
        let sets = reconcile-sets reported (desired_from d.tags []) distinct in
        (removals-queue left.1 installing).0
        ∙ ap (λ c. c ++ map (removal_of d) left.1)
            ((installs-queue left.0 recorded).0
              ∙ ap (λ c. map requested c ++ map (install_of services.codec d) left.0)
                  (added-profiles reported (forget_profiles d s.working)).0)
        ∙ rw (sets, append_assoc) refl

    stored-profiles : keep own removing.working.installed_profiles ≡ map (claim_profile d) reported
    unfolding forget_profiles
    stored-profiles =
        ap (keep own) (
          (removals-queue left.1 installing).1
          ∙ (installs-queue left.0 recorded).1
          ∙ (added-profiles reported (forget_profiles d s.working)).1)
        ∙ keep-append own (forget_profiles d s.working).installed_profiles
            (map (claim_profile d) reported)
        ∙ ap (λ ps. ps ++ keep own (map (claim_profile d) reported))
            (forgotten s.working.installed_profiles)
        ∙ claimed reported

-- Where the response holds a list of profiles and none of their UUIDs twice, ack_profile_list
-- succeeds; it stores behind the queue an InstallProfile for each profile of the tags that is not
-- reported and then a RemoveProfile for each reported profile that is managed and not of the tags;
-- and the profiles stored for the device are exactly the reported ones, as rows of the device.
pub ack_profile_list-sets :
    (services : Services) (load : LoadProfiles) (d : Device) (response : Fields)
    (reported : List InstalledProfile) (s : Session)
    → load response ≡ some reported
    → AreDistinct reported
    → let desired = desired_from d.tags [] in
      let (r, s') = ack_profile_list services load d response s in
      (r ≡ ok tt)
      × (map requested s'.stored.commands
          ≡ map requested s.working.commands
            ++ map (install_of services.codec d) (to_install reported desired)
            ++ map (removal_of d) (to_remove reported desired))
      × (keep (λ p. belongs_to d.id p.device_id) s'.stored.installed_profiles
          ≡ map (claim_profile d) reported)
ack_profile_list-sets services load d response reported s loaded distinct =
    rw (ack_profile_list-ends services d load response reported s loaded) (
      refl,
      stored-queue services d load response reported s loaded distinct,
      stored-profiles services d load response reported s loaded,
    )
