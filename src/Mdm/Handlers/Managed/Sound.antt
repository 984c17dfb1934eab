-- ===== src/Mdm/Handlers/Managed/Sound.antt =====
-- ack_managed_application_list and the invariant of the tables.
use commandment.Base.{String, refl, List, [], ◌∷◌}
use commandment.Python.Values.{text, dict, Fields, end, field, get, contains}
use commandment.Python.Exec.{no_result_found, type_error, Result, ok, err, lift, gets}
use commandment.Store.Rows.{Device, Tag, Application, ManagedApplication}
use commandment.Store.Session.{commit, change, one}
use commandment.Mdm.Commands.{install_application_of}
use commandment.Mdm.Queue.{Services, draw_uuid}
use commandment.Mdm.Endpoint.{item}
use commandment.Mdm.Keeps.{
  Keeps, Keeps-elsewhere, Keeps-gets, Keeps-raise, Keeps-if, Keeps-commit, Keeps-lift, Keeps-bind,
  Keeps-enqueue, Keeps-draw_uuid,
}
use commandment.Mdm.Handlers.Applications.{is_error, app_status_of, matching}
use commandment.Mdm.Handlers.Managed.{
  with_report, insert_managed, new_managed, found_or_new, put_managed, report_managed, report_all,
  queue_managed, install_unreported, install_all, install_tags, fields_of,
  ack_managed_application_list,
}

Keeps-found_or_new :
    (d : Device) (bundle_id : String) (r : Result ManagedApplication)
    → Keeps (found_or_new d bundle_id r)
unfolding found_or_new insert_managed
Keeps-found_or_new d bundle_id (ok a) = Keeps-lift (ok a)
Keeps-found_or_new d bundle_id (err no_result_found) =
    Keeps-bind (gets (λ s. new_managed d (text bundle_id) s.working)) _ (Keeps-gets _) λ a.
      Keeps-bind (change (insert_managed a)) _ (Keeps-elsewhere (insert_managed a) refl)
        (λ _. Keeps-lift (ok a))
Keeps-found_or_new d bundle_id (err e) = Keeps-raise e

Keeps-put_managed : (a : ManagedApplication) → Keeps (put_managed a)
unfolding put_managed
Keeps-put_managed a = Keeps-elsewhere _ refl

Keeps-report_managed :
    (d : Device) (bundle_id : String) (reported : Fields)
    → Keeps (report_managed d bundle_id reported)
unfolding report_managed
Keeps-report_managed d bundle_id reported =
    Keeps-bind (gets (λ s. one (matching d (text bundle_id) s.working))) _ (Keeps-gets _) λ found.
      Keeps-bind _ _ (Keeps-found_or_new d bundle_id found) λ a.
        Keeps-bind (lift (item "Status" reported)) _ (Keeps-lift _) λ state.
          Keeps-bind (lift (app_status_of state)) _ (Keeps-lift _) λ status.
            Keeps-bind (lift (item "HasConfiguration" reported)) _ (Keeps-lift _)
              λ has_configuration.
                Keeps-bind (lift (item "HasFeedback" reported)) _ (Keeps-lift _) λ has_feedback.
                  Keeps-bind (lift (item "IsValidated" reported)) _ (Keeps-lift _) λ is_validated.
                    Keeps-bind (lift (item "ManagementFlags" reported)) _ (Keeps-lift _) λ flags.
                      Keeps-put_managed (
                        with_report reported status has_configuration has_feedback is_validated
                          flags a)

Keeps-report_all : (d : Device) (reported : Fields) → Keeps (report_all d reported)
unfolding report_all
Keeps-report_all d end = Keeps-lift (ok tt)
Keeps-report_all d (field bundle_id (dict reported) rest) =
    Keeps-bind (report_managed d bundle_id reported) _ (Keeps-report_managed d bundle_id reported)
      (λ _. Keeps-report_all d rest)
Keeps-report_all d (field bundle_id v rest) = Keeps-raise type_error

Keeps-install_unreported :
    (services : Services) (d : Device) (reported : Fields) (app : Application)
    → Keeps (install_unreported services d reported app)
unfolding install_unreported queue_managed insert_managed
Keeps-install_unreported services d reported app =
    Keeps-if (contains app.bundle_id reported) _ _ (Keeps-lift (ok tt)) (
      Keeps-bind (draw_uuid services) _ (Keeps-draw_uuid services) λ uuid.
        Keeps-bind (gets (λ s. s.working.next_command_id)) _ (Keeps-gets _) λ command.
          Keeps-bind _ _ (Keeps-enqueue (install_application_of uuid app.itunes_store_id) d.id)
            λ _. Keeps-elsewhere (queue_managed d app command) refl)

Keeps-install_all :
    (services : Services) (d : Device) (reported : Fields) (apps : List Application)
    → Keeps (install_all services d reported apps)
unfolding install_all
Keeps-install_all services d reported [] = Keeps-lift (ok tt)
Keeps-install_all services d reported (app ∷ apps) =
    Keeps-bind (install_unreported services d reported app) _
      (Keeps-install_unreported services d reported app)
      (λ _. Keeps-install_all services d reported apps)

Keeps-install_tags :
    (services : Services) (d : Device) (reported : Fields) (tags : List Tag)
    → Keeps (install_tags services d reported tags)
unfolding install_tags
Keeps-install_tags services d reported [] = Keeps-lift (ok tt)
Keeps-install_tags services d reported (tag ∷ tags) =
    Keeps-bind (install_all services d reported tag.applications) _
      (Keeps-install_all services d reported tag.applications)
      (λ _. Keeps-install_tags services d reported tags)

pub Keeps-ack_managed_application_list :
    (services : Services) (d : Device) (response : Fields)
    → Keeps (ack_managed_application_list services d response)
unfolding ack_managed_application_list
Keeps-ack_managed_application_list services d response =
    Keeps-if (is_error (get "Status" response)) _ _ (Keeps-lift (ok tt)) (
      Keeps-bind (lift (item "ManagedApplicationList" response)) _ (Keeps-lift _) λ value.
        Keeps-bind (lift (fields_of value)) _ (Keeps-lift _) λ reported.
          Keeps-bind (report_all d reported) _ (Keeps-report_all d reported) λ _.
            Keeps-bind commit _ Keeps-commit λ _.
              Keeps-bind (install_tags services d reported d.tags) _
                (Keeps-install_tags services d reported d.tags) (λ _. Keeps-commit))
