-- ===== src/Mdm/Handlers/Router.antt =====
-- CommandRouter.handle of commandment/mdm/routers.py over the handlers of
-- commandment/mdm/handlers.py, and what they leave of the invariant of the tables.
use commandment.Base.{String, ◌≡◌, Bool, List, [], ◌∷◌, All, str_eq, if◌then◌else◌}
use commandment.Python.Values.{Value, Fields, get_or}
use commandment.Python.Dict.{IsDict}
use commandment.Python.Exec.{Result, Exec, pure}
use commandment.Python.Spec.{Spec, Spec-pure}
use commandment.Store.Rows.{Device}
use commandment.Store.Session.{Session, commit}
use commandment.Store.Tables.{IsGood, HasDevice}
use commandment.Mdm.Queue.{Services}
use commandment.Mdm.Endpoint.{Handle}
use commandment.Mdm.Endpoint.Sound.{HandlesSoundly}
use commandment.Mdm.Keeps.{Keeps, Keeps-commit}
use commandment.Mdm.Handlers.Information.{
  LoadInformation, ack_device_information, ack_device_information-IsGood,
}
use commandment.Mdm.Handlers.Inventory.{
  Fingerprint, LoadApplications, LoadUpdates, ack_certificate_list, ack_installed_app_list,
  ack_available_os_updates,
}
use commandment.Mdm.Handlers.Applications.{ack_install_application}
use commandment.Mdm.Handlers.Managed.{ack_managed_application_list}
use commandment.Mdm.Handlers.Managed.Sound.{Keeps-ack_managed_application_list}
use commandment.Mdm.Handlers.Kept.{Keeps-ack_profile_list}
use commandment.Mdm.Handlers.Sound.{
  Keeps-ack_certificate_list, Keeps-ack_installed_app_list, Keeps-ack_available_os_updates,
  Keeps-ack_install_application,
}
use commandment.Mdm.Handlers.{LoadProfiles, ack_profile_list}

abbrev pub Handlers : Type 0
Handlers = List (String × Handle)

-- CommandRouter.handle: a response to a command that no handler is registered for is only logged.
unfoldable pub handle_response : Handlers → Handle
handle_response [] row d response = pure tt
handle_response ((name, handler) ∷ handlers) row d response =
    if str_eq name row.request_type
    then handler row d response
    else handle_response handlers row d response

-- The handlers that look at the response and change nothing.
unfoldable pub ack_nothing : Handle
ack_nothing row d response = pure tt

-- ack_security_info loads its response and commits.
unfoldable pub ack_security_info : Handle
unfolding commit
ack_security_info row d response = commit

-- What the schemas load and the certificates give, and the ignored identifiers.
pub record Loads : Type 0 where
  pub profiles : LoadProfiles
  pub information : LoadInformation
  pub fingerprint : Fingerprint
  pub applications : LoadApplications
  pub ignored : List String
  pub updates : LoadUpdates

unfoldable pub own_handlers : Services → Loads → Handlers
unfolding ack_nothing ack_security_info ack_profile_list ack_device_information ack_certificate_list
    ack_installed_app_list ack_available_os_updates ack_install_application
    ack_managed_application_list
own_handlers services loads =
    ("DeviceInformation", λ row d response. ack_device_information loads.information d response)
    ∷ ("SecurityInfo", ack_security_info)
    ∷ ("ProfileList", λ row d response. ack_profile_list services loads.profiles d response)
    ∷ ("CertificateList", λ row d response. ack_certificate_list loads.fingerprint d response)
    ∷ (
      "InstalledApplicationList",
      λ row d response. ack_installed_app_list loads.applications loads.ignored d response,
    )
    ∷ ("InstallProfile", ack_nothing)
    ∷ ("RemoveProfile", ack_nothing)
    ∷ ("AvailableOSUpdates", λ row d response. ack_available_os_updates loads.updates d response)
    ∷ ("InstallApplication", ack_install_application)
    ∷ ("ManagedApplicationList", λ row d response. ack_managed_application_list services d response)
    ∷ ("RestartDevice", ack_nothing)
    ∷ ("ShutDownDevice", ack_nothing)
    ∷ []

-- command_router with its registered handlers
unfoldable pub command_router : Services → Loads → Handle
unfolding handle_response own_handlers
command_router services loads = handle_response (own_handlers services loads)

handle_response-HandlesSoundly :
    (P : Value → Fields → Type 0) (handlers : Handlers)
    → All (λ h. HandlesSoundly P h.1) handlers
    → HandlesSoundly P (handle_response handlers)
unfolding handle_response
handle_response-HandlesSoundly P [] h row d response says = Spec-pure _ tt (λ s k. k.good)
handle_response-HandlesSoundly P (handler ∷ handlers) h row d response says =
    choose (str_eq handler.0 row.request_type) (h.0 row d response says)
      (handle_response-HandlesSoundly P handlers h.1 row d response says)
  where
    choose :
        (b : Bool) {m n : Exec Session (Unit {0})}
        → Spec (HasDevice d) m (λ _. IsGood) IsGood
        → Spec (HasDevice d) n (λ _. IsGood) IsGood
        → Spec (HasDevice d) (if b then m else n) (λ _. IsGood) IsGood
    choose Bool.true p q = p
    choose Bool.false p q = q

-- A statement that keeps the invariant ends in it, from a session that holds a device.
Keeps-ends :
    (d : Device) (m : Exec Session (Unit {0})) → Keeps m → Spec (HasDevice d) m (λ _. IsGood) IsGood
Keeps-ends d m k = record { at = λ s h. k.good.at s h.good }

-- The attributes that the schema loads name no key twice, and no other UDID.
abbrev pub OwnUdid : LoadInformation → Value → Fields → Type 0
OwnUdid load udid response =
    (attributes : Fields)
    → load response ≡ Result.ok attributes
    → IsDict attributes × (get_or "udid" udid attributes ≡ udid)

-- Where the attributes that are loaded from a response name no key twice and no other UDID than
-- that of the device row, the command router with all its handlers keeps the invariant of the
-- tables, given a device row that is in them, whatever command is answered and however its handler
-- ends.
pub command_router-HandlesSoundly :
    (services : Services) (loads : Loads)
    → HandlesSoundly (OwnUdid loads.information) (command_router services loads)
unfolding command_router own_handlers ack_nothing ack_security_info
command_router-HandlesSoundly services loads =
    handle_response-HandlesSoundly (OwnUdid loads.information) (own_handlers services loads) (
      (λ row d response own. ack_device_information-IsGood loads.information d response own),
      (
        (λ row d response own. Keeps-ends d commit Keeps-commit),
        (
          (λ row d response own.
              Keeps-ends d _ (Keeps-ack_profile_list services loads.profiles d response)),
          (
            (λ row d response own.
                Keeps-ends d _ (Keeps-ack_certificate_list loads.fingerprint d response)),
            (
              (λ row d response own.
                  Keeps-ends d _
                    (Keeps-ack_installed_app_list loads.applications loads.ignored d response)),
              (
                nothing,
                (
                  nothing,
                  (
                    (λ row d response own.
                        Keeps-ends d _ (Keeps-ack_available_os_updates loads.updates d response)),
                    (
                      (λ row d response own.
                          Keeps-ends d _ (Keeps-ack_install_application row d response)),
                      (
                        (λ row d response own.
                            Keeps-ends d _
                              (Keeps-ack_managed_application_list services d response)),
                        (nothing, (nothing, tt)),
                      ),
                    ),
                  ),
                ),
              ),
            ),
          ),
        ),
      ),
    )
  where
    nothing : HandlesSoundly (OwnUdid loads.information) ack_nothing
    nothing row d response own = Spec-pure _ tt (λ s k. k.good)
