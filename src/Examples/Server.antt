-- ===== src/Examples/Server.antt =====
-- A device whose tag wants one profile and that reports another one, and requests from no tables.
use commandment.Base.{
  ◌≡◌, refl, ap, sym, ◌∙◌, String, true, false, none, some, List, [], ◌∷◌, ◌++◌, map, keep, str_eq,
  arith, IsIn, inl, inr, subst, ◌≢◌,
}
use commandment.Python.Values.{
  null, text, flag, Fields, end, field, get, get_or, contains, sql_eq, sql_eq_sound,
}
use commandment.Python.Exec.{ok, err, pure, ok_inj, multiple_results_found}
use commandment.Python.Spec.{Spec}
use commandment.Python.Dict.{IsDict}
use commandment.Mdm.Handlers.Information.{
  LoadInformation, ack_device_information, ack_device_information-IsGood,
}
use commandment.Mdm.Handlers.Information.Collision.{ack_device_information-collision}
use commandment.Store.Rows.{Device, Profile, InstalledProfile, Db}
use commandment.Store.Session.{begin}
use commandment.Store.Tables.{IsSound, IsGood, HasDevice}
use commandment.Mdm.Endpoint.{Handle, is_device, serve}
use commandment.Mdm.Endpoint.Sound.{HandlesSoundly, Says}
use commandment.Mdm.Checkin.Routes.{serve_checkin}
use commandment.Mdm.Handlers.{
  LoadProfiles, belongs_to, claim_profile, desired_from, ack_profile_list, is_desired, assign,
}
use commandment.Mdm.Handlers.Profiles.{AreDistinct}
use commandment.Mdm.Handlers.Responses.{requested, install_of, removal_of, ack_profile_list-sets}
use commandment.Mdm.Handlers.Router.{Loads, OwnUdid, command_router, command_router-HandlesSoundly}
use commandment.Mdm.Server.{
  no_rows, checked_in, polled, announced, serve-command_router-IsSound, Reached, created, served,
  Reached-IsSound,
}
use commandment.Examples.Mdm.{services, apns, biplist, phone, two_queued, queued_row}
use commandment.Examples.Checkin.{two_queued-IsSound, token_message}
use commandment.Apns.Thread.{push_round}

abbrev wifi : Profile
wifi = record { uuid = "P1"; contents = 1 ∷ 2 ∷ [] }

abbrev mail : Profile
mail = record { uuid = "P2"; contents = 3 ∷ [] }

abbrev tagged : Device
tagged = record phone { tags = record { profiles = wifi ∷ mail ∷ []; applications = [] } ∷ [] }

abbrev reported_as : String → String → InstalledProfile
reported_as uuid identifier = record {
  device_id = none;
  device_udid = null;
  is_managed = flag true;
  payload_identifier = text identifier;
  payload_uuid = some uuid;
  payload_content = [];
}

abbrev reported : List InstalledProfile
reported = reported_as "P2" "mail" ∷ reported_as "P3" "vpn" ∷ []

abbrev load : LoadProfiles
load response = some reported

reported-AreDistinct : AreDistinct reported
reported-AreDistinct = ((λ uuid e f. other uuid e f, tt), (tt, tt))
  where
    other : (uuid : String) → some "P2" ≡ some uuid → some "P3" ≡ some uuid → ⊥
    other uuid e f =
        let clash : false ≡ true =
          ap (λ o. elim o [ none ↦ false | some s ↦ str_eq s "P2" ]) (f ∙ sym e) in
        ground arith

ack_profile_list-sets_example :
    let (r, s) = ack_profile_list services load tagged end (begin two_queued) in
    (r ≡ ok tt)
    × (map requested s.stored.commands
        ≡ map requested two_queued.commands
          ++ install_of services.codec tagged wifi
            ∷ removal_of tagged (reported_as "P3" "vpn")
            ∷ [])
    × (keep (λ p. belongs_to 1 p.device_id) s.stored.installed_profiles
        ≡ map (claim_profile tagged) reported)
unfolding desired_from assign is_desired begin
ack_profile_list-sets_example =
    ack_profile_list-sets services load tagged end reported (begin two_queued) refl
      reported-AreDistinct

abbrev silent : Handle
silent row d response = pure tt

-- The attributes of a response: the UDID that it holds, and a name.
abbrev attributes_of : Fields → Fields
unfolding get_or
attributes_of response =
    field "udid" (get_or "UDID" null response) (field "device_name" (text "Phone") end)

abbrev loads : Loads
loads = record {
  profiles = load;
  information = λ response. ok (attributes_of response);
  fingerprint = λ der. ok (text "00ff");
  applications = λ response. ok [];
  ignored = [];
  updates = λ response. ok [];
}

command_router-HandlesSoundly_example :
    HandlesSoundly (OwnUdid loads.information) (command_router services loads)
command_router-HandlesSoundly_example = command_router-HandlesSoundly services loads

abbrev answer_message : Fields
answer_message =
    field "UDID" (text "U1")
      (field "Status" (text "Acknowledged") (field "CommandUUID" (text "7f01") end))

answer_message-Says : Says (OwnUdid loads.information) (some answer_message)
unfolding is_device contains get_or get
answer_message-Says udid d named found attributes e =
    let of : text "U1" ≡ udid = ap (λ o. elim o [ none ↦ null | some v ↦ v ]) named in
    let own : d.udid ≡ text "U1" =
      sql_eq_sound d.udid (text "U1") (ap (λ u. sql_eq d.udid u) of ∙ found) in
    subst (λ a. IsDict a × (get_or "udid" d.udid a ≡ d.udid))
      (ok_inj (attributes_of answer_message) attributes e) ((refl, (refl, tt)), sym own)

abbrev asked : Db
asked = record two_queued { commands = queued_row 4 "DeviceInformation" end ∷ [] }

asked-IsSound : IsSound asked
asked-IsSound = record {
  device_keys = two_queued-IsSound.device_keys;
  device_fresh = two_queued-IsSound.device_fresh;
  udids = two_queued-IsSound.udids;
  command_keys = (tt, tt);
  command_fresh = (omega arith, tt);
}

serve-command_router-IsSound_example :
    IsSound (serve services (command_router services loads) (some answer_message) asked).1
serve-command_router-IsSound_example =
    serve-command_router-IsSound services loads (some answer_message) asked answer_message-Says
      asked-IsSound

abbrev phone_authenticates : Fields
phone_authenticates = field "MessageType" (text "Authenticate") (field "UDID" (text "U1") end)

-- A phone enrolls, answers DeviceInformation, and is left to the push thread.
enrolled-Reached :
    let db0 = (serve_checkin services apns biplist none (some phone_authenticates) no_rows).1 in
    let db1 = (serve_checkin services apns biplist none (some token_message) db0).1 in
    let db2 = (serve services (command_router services loads) (some answer_message) db1).1 in
    Reached (push_round services apns db2).1
enrolled-Reached =
    served
      (served
        (served (served created (checked_in services apns biplist none (some phone_authenticates)))
          (checked_in services apns biplist none (some token_message)))
        (polled services loads (some answer_message) answer_message-Says))
      (announced services apns)

Reached-IsSound_example :
    let db0 = (serve_checkin services apns biplist none (some phone_authenticates) no_rows).1 in
    let db1 = (serve_checkin services apns biplist none (some token_message) db0).1 in
    let db2 = (serve services (command_router services loads) (some answer_message) db1).1 in
    IsSound (push_round services apns db2).1
Reached-IsSound_example = Reached-IsSound enrolled-Reached

abbrev tablet : Device
tablet = record phone { id = 2; udid = text "U2" }

abbrev both : Db
both = record two_queued { devices = phone ∷ tablet ∷ []; next_device_id = 3 }

abbrev claims_udid : LoadInformation
claims_udid response = ok (field "device_name" (text "Tablet") (field "udid" (text "U1") end))

abbrev claimed_attributes : Fields
claimed_attributes = field "device_name" (text "Tablet") (field "udid" (text "U1") end)

claimed-IsDict : IsDict claimed_attributes
unfolding contains
claimed-IsDict = (refl, (refl, tt))

claimed-udid : get "udid" claimed_attributes ≡ some (text "U1")
unfolding get
claimed-udid = refl

answer_message-of : get "UDID" answer_message ≡ some (text "U1")
unfolding get
answer_message-of = refl

phone-other : phone.id ≢ tablet.id
phone-other e = omega arith

tablet-IsIn : IsIn tablet (phone ∷ tablet ∷ [])
tablet-IsIn = inr (inl refl)

phone-IsIn : IsIn phone (phone ∷ tablet ∷ [])
phone-IsIn = inl refl

ack_device_information-collision_example :
    let db =
      (ack_device_information claims_udid tablet end
        (record { stored = both; working = both; draws = 0 })).1.stored in
    serve services silent (some answer_message) db ≡ (err multiple_results_found, db)
ack_device_information-collision_example =
    ack_device_information-collision services silent claims_udid tablet phone end claimed_attributes
      answer_message "U1" (record { stored = both; working = both; draws = 0 }) refl claimed-IsDict
      claimed-udid tablet-IsIn phone-IsIn refl phone-other answer_message-of

abbrev renames : LoadInformation
renames response = ok (field "device_name" (text "Tablet") end)

renames-same :
    (attributes : Fields)
    → renames end ≡ ok attributes
    → IsDict attributes × (get_or "udid" phone.udid attributes ≡ phone.udid)
unfolding contains get_or get
renames-same attributes e =
    let same : field "device_name" (text "Tablet") end ≡ attributes = cc in
    subst (λ a. IsDict a × (get_or "udid" phone.udid a ≡ phone.udid)) same ((refl, tt), refl)

ack_device_information-IsGood_example :
    Spec (HasDevice phone) (ack_device_information renames phone end) (λ _. IsGood) IsGood
ack_device_information-IsGood_example = ack_device_information-IsGood renames phone end renames-same
