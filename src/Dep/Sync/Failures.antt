-- ===== src/Dep/Sync/Failures.antt =====
-- A device that no page with it can be stored for: one that a sync adds before it has a profile.
use commandment.Base.{
  ℕ, ◌≡◌, refl, ap, ◌∙◌, String, Bool, true, false, none, some, [], keep, str_eq, if◌then◌else◌,
}
use commandment.Python.Values.{
  Value, text, num, arr, dict, Items, cons, Fields, get, put, get-put, contains, contains-iff-get,
}
use commandment.Python.Exec.{
  key_error, Result, ok, err, Exec, pure, lift, gets, bind-ok, bind-err, ◌>>=◌, ◌>>◌, modify,
}
use commandment.Store.Session.{one}
use commandment.Mdm.Endpoint.{item, item-some}
use commandment.Dep.Account.{DepAccount, DepSession, DateParser, put_account, commit_tables}
use commandment.Dep.Rows.{
  without, delete_key, is_assigned, parse_key, prepare_device, operation_of, dep_device,
}
use commandment.Dep.Sync.{
  insert_dep, has_serial, advanced, add_device, store_found, store_device, store_items,
  store_devices, store_page,
}
use commandment.Dep.Sync.Devices.{get-without}

contains-get : (k : String) (d : Fields) (v : Value) → get k d ≡ some v → contains k d ≡ true
contains-get k d v h = contains-iff-get k d ∙ ap (λ o. elim o [ none ↦ false | some _ ↦ true ]) h

module _ (parse : DateParser) (device : Fields) (op op_date date : Value) (t : ℕ)
    (status : get "profile_status" device ≡ some (text "empty"))
    (operation : get "op_type" device ≡ some op) (dated : get "op_date" device ≡ some op_date)
    (assigned : get "device_assigned_date" device ≡ some date) (parsed : parse date ≡ ok t)
    (unassigned : get "profile_assign_time" device ≡ none) where
  abbrev parsed_device : Fields
  unfolding put
  parsed_device = put "device_assigned_date" (num t) device

  abbrev undated : Fields
  unfolding without
  undated = without "op_date" (without "op_type" parsed_device)

  kept :
      (k : String)
      → str_eq "device_assigned_date" k ≡ false
      → str_eq "op_type" k ≡ false
      → str_eq "op_date" k ≡ false
      → get k undated ≡ get k device
  unfolding undated parsed_device
  kept k a b c =
      get-without "op_date" k (without "op_type" parsed_device) c
      ∙ get-without "op_type" k parsed_device b
      ∙ get-put "device_assigned_date" k (num t) device
      ∙ ap (λ e. if e then some (num t) else get k device) a

  abbrev deletes : Exec Fields (Unit {0})
  unfolding delete_key
  deletes = do
    delete_key "op_type"
    delete_key "op_date"
    delete_key "profile_assign_time"
    delete_key "device_assigned_date"

  parse_key-assigned : parse_key parse "device_assigned_date" device ≡ (ok tt, parsed_device)
  unfolding parse_key parsed_device
  parse_key-assigned =
      bind-ok (lift (item "device_assigned_date" device)) (λ x. lift (parse x) >>= store) device
        device date (ap (λ r. (r, device)) (item-some "device_assigned_date" device date assigned))
      ∙ bind-ok (lift (parse date)) store device device t (ap (λ r. (r, device)) parsed)
    where
      store : ℕ → Exec Fields (Unit {0})
      store n = modify (put "device_assigned_date" (num n))

  synced : contains "op_type" parsed_device ≡ true
  unfolding parsed_device
  synced =
      contains-get "op_type" parsed_device op
        (get-put "device_assigned_date" "op_type" (num t) device ∙ operation)

  deletes-unassigned : deletes parsed_device ≡ (err (key_error "profile_assign_time"), undated)
  unfolding deletes undated delete_key parsed_device put
  deletes-unassigned =
      bind-ok (delete_key "op_type") (λ _. rest) parsed_device (without "op_type" parsed_device) tt
        (deleted "op_type" parsed_device true synced)
      ∙ bind-ok (delete_key "op_date")
          (λ _. delete_key "profile_assign_time" >> delete_key "device_assigned_date")
          (without "op_type" parsed_device) undated tt
          (deleted "op_date" (without "op_type" parsed_device) true
            (contains-get "op_date" (without "op_type" parsed_device) op_date dated_still))
      ∙ bind-err (delete_key "profile_assign_time") (λ _. delete_key "device_assigned_date") undated
          undated (key_error "profile_assign_time")
          (deleted "profile_assign_time" undated false (
            contains-iff-get "profile_assign_time" undated
            ∙ ap (λ o. elim o [ none ↦ false | some _ ↦ true ])
                (kept "profile_assign_time" refl refl refl ∙ unassigned)))
    where
      rest : Exec Fields (Unit {0})
      rest = do
        delete_key "op_date"
        delete_key "profile_assign_time"
        delete_key "device_assigned_date"

      dated_still : get "op_date" (without "op_type" parsed_device) ≡ some op_date
      dated_still =
          get-without "op_type" "op_date" parsed_device refl
          ∙ get-put "device_assigned_date" "op_date" (num t) device
          ∙ dated

      deleted :
          (k : String) (d : Fields) (b : Bool)
          → contains k d ≡ b
          → delete_key k d ≡ (if b then (ok tt, without k d) else (err (key_error k), d))
      deleted k d b h =
          ap
            (λ (c : Bool).
              if◌then◌else◌ {A = Result (Unit {0}) × Fields} c (ok tt, without k d)
                (err (key_error k), d))
            h

  prepare_device-unassigned :
      prepare_device parse device ≡ (err (key_error "profile_assign_time"), undated)
  unfolding prepare_device deletes
  prepare_device-unassigned =
      bind-ok (lift (item "profile_status" device)) after device device (text "empty")
        (ap (λ r. (r, device)) (item-some "profile_status" device (text "empty") status))
      ∙ bind-ok (parse_key parse "device_assigned_date") (λ _. unsync) device parsed_device tt
          parse_key-assigned
      ∙ ap (λ (b : Bool). (if b then deletes else pure tt) parsed_device) synced
      ∙ deletes-unassigned
    where
      unsync : Exec Fields (Unit {0})
      unsync = do b ← gets (contains "op_type"); if b then deletes else pure tt

      after : Value → Exec Fields (Unit {0})
      after v = do
        if is_assigned v then parse_key parse "profile_assign_time" else pure tt
        parse_key parse "device_assigned_date"
        unsync

  module _ (v : Value) (s : DepSession) (known : operation_of op ≡ ok tt)
      (named : get "serial_number" device ≡ some v)
      (unknown : keep (has_serial v) s.working.db.devices ≡ []) where
    store_device-unassigned :
        store_device parse device s ≡ (err (key_error "profile_assign_time"), s)
    unfolding store_device one store_found add_device
    store_device-unassigned =
        bind-ok checked (λ _. lift (item "serial_number" device) >>= find) s s tt
          (ap (λ (b : Bool). (if b then operate else pure tt) s)
              (contains-get "op_type" device op operation)
            ∙ bind-ok (lift (item "op_type" device)) (λ o. lift (operation_of o)) s s op
                (ap (λ r. (r, s)) (item-some "op_type" device op operation))
            ∙ ap (λ r. (r, s)) known)
        ∙ bind-ok (lift (item "serial_number" device)) find s s v
            (ap (λ r. (r, s)) (item-some "serial_number" device v named))
        ∙ ap (λ ds. store_found parse device (one ds) s) unknown
        ∙ bind-err (lift (prepare_device parse device).0) adding s s
            (key_error "profile_assign_time")
            (ap (λ (x : Result (Unit {0}) × Fields). (x.0, s)) prepare_device-unassigned)
      where
        operate : Exec DepSession (Unit {0})
        operate = do op ← lift (item "op_type" device); lift (operation_of op)

        checked : Exec DepSession (Unit {0})
        checked = if contains "op_type" device then operate else pure tt

        find : Value → Exec DepSession (Unit {0})
        find w = do
          found ← gets (λ s. one (keep (has_serial w) s.working.db.devices))
          store_found parse device found

        adding : Unit {0} → Exec DepSession (Unit {0})
        adding _ =
            let device' = (prepare_device parse device).1 in
            lift (dep_device s.working.db.next_device_id device') >>= insert_dep

    -- A page whose first device is unknown, has a valid operation with its date, a date of
    -- assignment that can be read, the profile status "empty" and no time of assignment raises a
    -- KeyError for that time, and changes nothing.
    pub store_page-unassigned :
        (a : DepAccount) (page : Fields) (items : Items)
        → get "devices" page ≡ some (arr (cons (dict device) items))
        → store_page parse a page s ≡ (err (key_error "profile_assign_time"), s)
    unfolding store_page store_devices store_items
    store_page-unassigned a page items h =
        bind-ok (lift (item "devices" page)) (λ devices. store_devices parse devices >> rest) s s
          (arr (cons (dict device) items))
          (ap (λ r. (r, s)) (item-some "devices" page (arr (cons (dict device) items)) h))
        ∙ bind-err (store_items parse (cons (dict device) items)) (λ _. rest) s s
            (key_error "profile_assign_time")
            (bind-err (store_device parse device) (λ _. store_items parse items) s s
              (key_error "profile_assign_time") store_device-unassigned)
      where
        rest : Exec DepSession DepAccount
        rest = do
          lift (item "cursor" page)
          until ← lift (item "fetched_until" page)
          n ← lift (parse until)
          put_account (advanced page n a)
          commit_tables
          pure (advanced page n a)
