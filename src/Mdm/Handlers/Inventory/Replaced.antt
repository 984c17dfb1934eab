-- ===== src/Mdm/Handlers/Inventory/Replaced.antt =====
-- What a list of installed applications leaves of the inventory.
use mathlib.Core.List.{append_assoc, append-nil}
use commandment.Base.{
  ◌≡◌, sym, ap, ◌∙◌, String, not, Option, none, some, List, [], ◌∷◌, ◌++◌, map, keep, Bool-cases,
  inl, inr,
}
use commandment.Python.Values.{Items, arr, Fields, get}
use commandment.Python.Exec.{Result, ok, Exec, lift, bind-ok, ◌>>=◌, ◌>>◌}
use commandment.Store.Rows.{Device, InstalledApplication, Db}
use commandment.Store.Session.{Session, commit, change}
use commandment.Mdm.Endpoint.{item, item-some}
use commandment.Mdm.Handlers.{belongs_to}
use commandment.Mdm.Handlers.Inventory.{
  LoadApplications, is_ignored, claim_application, forget_applications, add_applications,
  ack_installed_app_list, sized,
}

-- The entries that are models.
abbrev pub models : List (Option InstalledApplication) → List InstalledApplication
models [] = []
models (none ∷ apps) = models apps
models (some a ∷ apps) = a ∷ models apps

-- The rows that a device reports and that are not ignored.
abbrev pub kept_applications :
    List String → Device → List (Option InstalledApplication) → List InstalledApplication
kept_applications ignored d apps =
    map (claim_application d)
      (keep (λ a. not (is_ignored ignored a.bundle_identifier)) (models apps))

abbrev pub with_applications : List InstalledApplication → Db → Db
with_applications rows db = record db { installed_applications = rows }

add_applications-kept :
    (ignored : List String) (d : Device) (apps : List (Option InstalledApplication)) (db : Db)
    → add_applications ignored d apps db
      ≡ with_applications (db.installed_applications ++ kept_applications ignored d apps) db
unfolding add_applications
add_applications-kept ignored d [] db = ap (λ rows. with_applications rows db) (sym (append-nil _))
add_applications-kept ignored d (none ∷ apps) db = add_applications-kept ignored d apps db
add_applications-kept ignored d (some a ∷ apps) db =
    elim (Bool-cases (is_ignored ignored a.bundle_identifier)) [
      | inl skipped ↦ rw skipped (add_applications-kept ignored d apps db)
      | inr taken ↦ rw taken (
          add_applications-kept ignored d apps
            (with_applications (db.installed_applications ++ claim_application d a ∷ []) db)
          ∙ ap (λ rows. with_applications rows db)
              (append_assoc db.installed_applications (claim_application d a ∷ [])
                (kept_applications ignored d apps)))
    ]

abbrev others_of : Device → Db → List InstalledApplication
others_of d db = keep (λ a. not (belongs_to d.id a.device_id)) db.installed_applications

both_stored : Session → Db → Result (Unit {0}) × Session
both_stored s db = (ok tt, record s { stored = db; working = db })

ack_installed_app_list-stored :
    (load : LoadApplications) (ignored : List String) (d : Device) (response : Fields)
    (items : Items) (apps : List (Option InstalledApplication)) (s : Session)
    → get "InstalledApplicationList" response ≡ some (arr items)
    → load response ≡ ok apps
    → ack_installed_app_list load ignored d response s
      ≡ both_stored s
          (with_applications (others_of d s.working ++ kept_applications ignored d apps) s.working)
unfolding ack_installed_app_list forget_applications commit both_stored
ack_installed_app_list-stored load ignored d response items apps s listed loaded =
    let left : Session = record s { working = forget_applications d s.working } in
    bind-ok (lift (item "InstalledApplicationList" response))
      (λ value. lift (sized value) >> (lift (load response) >>= finish)) left left (arr items)
      (ap (λ r. (r, left)) (item-some "InstalledApplicationList" response (arr items) listed))
    ∙ bind-ok (lift (load response)) finish left left apps (ap (λ r. (r, left)) loaded)
    ∙ ap (both_stored s) (add_applications-kept ignored d apps (forget_applications d s.working))
  where
    finish : List (Option InstalledApplication) → Exec Session (Unit {0})
    finish found = do change (add_applications ignored d found); commit

-- Where a response holds a list of applications and the schema loads it, ack_installed_app_list
-- succeeds, and the stored installed applications are the ones of the other devices and then the
-- loaded models that are not ignored, as rows of the device; nothing else of the tables changes.
pub ack_installed_app_list-replaces :
    (load : LoadApplications) (ignored : List String) (d : Device) (response : Fields)
    (items : Items) (apps : List (Option InstalledApplication)) (s : Session)
    → get "InstalledApplicationList" response ≡ some (arr items)
    → load response ≡ ok apps
    → let (r, s') = ack_installed_app_list load ignored d response s in
      (r ≡ ok tt)
      × (s'.stored
          ≡ with_applications (others_of d s.working ++ kept_applications ignored d apps) s.working)
unfolding both_stored
ack_installed_app_list-replaces load ignored d response items apps s listed loaded =
    let whole = ack_installed_app_list-stored load ignored d response items apps s listed loaded in
    (
      ap (λ (x : Result (Unit {0}) × Session). x.0) whole,
      ap (λ (x : Result (Unit {0}) × Session). x.1.stored) whole,
    )
