-- ===== src/Mdm/Handlers/Managed/Installs.antt =====
-- What a list of managed applications makes a device install.
use mathlib.Core.List.{append_assoc, map-append, append-nil}
use commandment.Base.{
  String, ◌≡◌, refl, sym, ap, subst, ◌∙◌, false, not, Bool-cases, inl, inr, some, List, [], ◌∷◌,
  ◌++◌, map, keep, keep-append,
}
use commandment.Python.Values.{Value, text, num, dict, Fields, end, field, get, contains}
use commandment.Python.Exec.{
  type_error, no_result_found, Result, ok, err, Exec, lift, gets, bind-ok, ◌>>=◌, ◌>>◌,
}
use commandment.Python.Spec.{Spec, Ends, Spec-lift, Spec-bind}
use commandment.Store.Rows.{Device, CommandRow, Tag, Application, ManagedApplication}
use commandment.Store.Session.{Session, commit, one}
use commandment.Mdm.Enums.{queued}
use commandment.Mdm.Queue.{Services}
use commandment.Mdm.Endpoint.{item, item-some}
use commandment.Mdm.Commands.{install_application_of, request_type}
use commandment.Mdm.Queue.{draw_uuid, enqueue}
use commandment.Mdm.Handlers.Applications.{is_error, app_status_of, matching}
use commandment.Mdm.Handlers.Responses.{Requested, requested}
use commandment.Mdm.Handlers.Managed.{
  with_report, insert_managed, found_or_new, put_managed, report_managed, report_all, queue_managed,
  install_unreported, install_all, install_tags, fields_of, ack_managed_application_list,
}

abbrev pub application_of : Device → Application → Requested
application_of d app = (
  "InstallApplication",
  field "iTunesStoreID" app.itunes_store_id
      (field "ManagementFlags" (num 1) (field "ChangeManagementState" (text "Managed") end)),
  some d.id,
  queued,
)

abbrev pub applications_of : List Tag → List Application
applications_of [] = []
applications_of (tag ∷ tags) = tag.applications ++ applications_of tags

-- The applications that the response does not have.
abbrev pub unreported : Fields → List Application → List Application
unreported reported apps = keep (λ app. not (contains app.bundle_id reported)) apps

abbrev HasQueue : List CommandRow → Session → Type 0
HasQueue q s = s.working.commands ≡ q

-- The reports change no command.
module _ (q : List CommandRow) where
  abbrev Waits : {A : Type 0} → Exec Session A → Type 0
  Waits m = Spec (HasQueue q) m (λ _. HasQueue q) (λ _. Unit)

  queue_follows :
      {A B : Type 0} (m : Exec Session A) (f : A → Exec Session B)
      → Waits m
      → ((a : A) → Waits (f a))
      → Waits (m >>= f)
  queue_follows m f h k = Spec-bind (λ _. HasQueue q) (λ _. HasQueue q) m f h k

  Waits-lift : {A : Type 0} (r : Result A) → Waits (lift r)
  Waits-lift r = Spec-lift (λ _. HasQueue q) r (λ a e s p. p) (λ s p. tt)

  Waits-found_or_new :
      (d : Device) (bundle_id : String) (r : Result ManagedApplication)
      → Waits (found_or_new d bundle_id r)
  unfolding found_or_new insert_managed
  Waits-found_or_new d bundle_id (ok a) = Waits-lift (ok a)
  Waits-found_or_new d bundle_id (err no_result_found) = record { at = λ s p. p }
  Waits-found_or_new d bundle_id (err e) = Waits-lift (err e)

  Waits-put_managed : (a : ManagedApplication) → Waits (put_managed a)
  unfolding put_managed
  Waits-put_managed a = record { at = λ s p. p }

  Waits-report_managed :
      (d : Device) (bundle_id : String) (reported : Fields)
      → Waits (report_managed d bundle_id reported)
  unfolding report_managed
  Waits-report_managed d bundle_id reported =
      queue_follows (gets (λ s. one (matching d (text bundle_id) s.working))) _
        (record { at = λ s p. p })
        λ found. queue_follows _ _ (Waits-found_or_new d bundle_id found) λ a.
          queue_follows (lift (item "Status" reported)) _ (Waits-lift _) λ state.
            queue_follows (lift (app_status_of state)) _ (Waits-lift _) λ status.
              queue_follows (lift (item "HasConfiguration" reported)) _ (Waits-lift _)
                λ has_configuration.
                  queue_follows (lift (item "HasFeedback" reported)) _ (Waits-lift _)
                    λ has_feedback.
                      queue_follows (lift (item "IsValidated" reported)) _ (Waits-lift _)
                        λ is_validated.
                          queue_follows (lift (item "ManagementFlags" reported)) _ (Waits-lift _)
                            λ flags. Waits-put_managed (
                              with_report reported status has_configuration has_feedback
                                is_validated flags a)

  Waits-report_all : (d : Device) (reported : Fields) → Waits (report_all d reported)
  unfolding report_all
  Waits-report_all d end = record { at = λ s p. p }
  Waits-report_all d (field bundle_id (dict reported) rest) =
      queue_follows _ _ (Waits-report_managed d bundle_id reported) (λ _. Waits-report_all d rest)
  Waits-report_all d (field bundle_id v rest) = Waits-lift (err type_error)

module _ (services : Services) (d : Device) (reported : Fields) where
  -- A list of installs succeeds and stores its requests behind the queue.
  pub record Installs (m : Exec Session (Unit {0})) (apps : List Application) (s : Session)
      : Type 0 where
    pub left : Session
    pub ends : m s ≡ (ok tt, left)
    pub queue :
        map requested left.working.commands
        ≡ map requested s.working.commands ++ map (application_of d) (unreported reported apps)

  install_unreported-Installs :
      (app : Application) (s : Session)
      → Installs (install_unreported services d reported app) (app ∷ []) s
  unfolding install_unreported install_application_of draw_uuid enqueue queue_managed insert_managed
      request_type
  install_unreported-Installs app s = elim (Bool-cases (contains app.bundle_id reported)) [
    | inl known ↦ rw known (record { left = s; ends = refl; queue = rw known (sym (append-nil _)) })
    | inr missing ↦ rw missing (record {
      left = _;
      ends = refl;
      queue = rw missing (map-append requested s.working.commands _);
    })
  ]

  Installs-follow :
      (m n : Exec Session (Unit {0})) (xs ys : List Application) (s : Session)
      → Installs m xs s
      → ((s' : Session) → Installs n ys s')
      → Installs (m >> n) (xs ++ ys) s
  Installs-follow m n xs ys s first later =
      let rest = later first.left in
      record {
        left = rest.left;
        ends = bind-ok m (λ _. n) s first.left tt first.ends ∙ rest.ends;
        queue =
            rest.queue
            ∙ ap (λ c. c ++ map (application_of d) (unreported reported ys)) first.queue
            ∙ simp (append_assoc, map-append, keep-append);
      }

  install_all-Installs :
      (apps : List Application) (s : Session)
      → Installs (install_all services d reported apps) apps s
  unfolding install_all
  install_all-Installs [] s = record { left = s; ends = refl; queue = sym (append-nil _) }
  install_all-Installs (app ∷ apps) s =
      Installs-follow _ _ (app ∷ []) apps s (install_unreported-Installs app s)
        (install_all-Installs apps)

  install_tags-Installs :
      (tags : List Tag) (s : Session)
      → Installs (install_tags services d reported tags) (applications_of tags) s
  unfolding install_tags
  install_tags-Installs [] s = record { left = s; ends = refl; queue = sym (append-nil _) }
  install_tags-Installs (tag ∷ tags) s =
      Installs-follow _ _ tag.applications (applications_of tags) s
        (install_all-Installs tag.applications s) (install_tags-Installs tags)

  module _ (response : Fields) (s s' : Session) (fine : is_error (get "Status" response) ≡ false)
      (listed : get "ManagedApplicationList" response ≡ some (dict reported))
      (all : report_all d reported s ≡ (ok tt, s')) where
    abbrev installed :
        Installs
          (install_tags services d reported d.tags)
          (applications_of d.tags)
          (record s' { stored = s'.working })
    installed = install_tags-Installs d.tags (record s' { stored = s'.working })

    ack_managed_application_list-ends :
        ack_managed_application_list services d response s
        ≡ (ok tt, record installed.left { stored = installed.left.working })
    unfolding ack_managed_application_list commit
    ack_managed_application_list-ends = rw fine (
        ap (λ r. (lift r >>= follow) s)
          (item-some "ManagedApplicationList" response (dict reported) listed)
        ∙ bind-ok (report_all d reported) (λ _. installing reported) s s' tt all
        ∙ bind-ok (install_tags services d reported d.tags) (λ _. commit)
            (record s' { stored = s'.working }) installed.left tt installed.ends)
      where
        installing : Fields → Exec Session (Unit {0})
        installing found = do commit; install_tags services d found d.tags; commit

        follow : Value → Exec Session (Unit {0})
        follow value = do found ← lift (fields_of value); report_all d found; installing found

    same_queue : s'.working.commands ≡ s.working.commands
    same_queue =
        subst (Ends (λ (u : Unit {0}). HasQueue s.working.commands) (λ _. Unit)) all
          ((Waits-report_all s.working.commands d reported).at s refl)

-- Where a response without an error holds the applications that a device manages and each of them
-- is recorded, ack_managed_application_list succeeds and stores behind the queue one
-- InstallApplication for each application of the tags that the response does not have, in their
-- order, whatever installs are queued or recorded already.
pub ack_managed_application_list-installs :
    (services : Services) (d : Device) (response reported : Fields) (s s' : Session)
    → is_error (get "Status" response) ≡ false
    → get "ManagedApplicationList" response ≡ some (dict reported)
    → report_all d reported s ≡ (ok tt, s')
    → let (r, s'') = ack_managed_application_list services d response s in
      (r ≡ ok tt)
      × (map requested s''.stored.commands
          ≡ map requested s.working.commands
            ++ map (application_of d) (unreported reported (applications_of d.tags)))
ack_managed_application_list-installs services d response reported s s' fine listed all =
    rw (ack_managed_application_list-ends services d reported response s s' fine listed all) (
      refl,
      (installed services d reported response s s' fine listed all).queue
          ∙ ap
              (λ c.
                map requested c
                ++ map (application_of d) (unreported reported (applications_of d.tags)))
              (same_queue services d reported response s s' fine listed all),
    )
