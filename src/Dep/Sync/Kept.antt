-- ===== src/Dep/Sync/Kept.antt =====
-- What each device of a page keeps, the pages keep.
use commandment.Base.{any, ◌==◌, ℕ, ◌≡◌, Bool, List, [], ◌∷◌, keep, if◌then◌else◌}
use commandment.Python.Values.{Value, arr, dict, Items, nil, cons, Fields, contains}
use commandment.Python.Exec.{
  gets, integrity_error, type_error, no_result_found, Result, ok, err, Exec, pure, raise, lift,
  ◌>>=◌, ◌>>◌,
}
use commandment.Python.Spec.{Spec, Spec-pure, Spec-raise, Spec-lift, Spec-bind, Spec-if}
use commandment.Store.Rows.{Device, Db}
use commandment.Store.Session.{one}
use commandment.Mdm.Endpoint.{item}
use commandment.Dep.Account.{
  DepAccount, DepSession, DateParser, put_account, commit_tables, change_tables,
}
use commandment.Dep.Rows.{dep_device, prepare_device, update_device, operation_of}
use commandment.Dep.Sync.{
  with_row, add_row, insert_dep, add_device, change_device, has_serial, store_found, store_device,
  store_items, store_devices, store_page, advanced,
}

-- The pages one after the other, without the client.
unfoldable pub store_pages : DateParser → DepAccount → List Fields → Exec DepSession DepAccount
unfolding store_page
store_pages parse a [] = pure a
store_pages parse a (page ∷ pages) = do a' ← store_page parse a page; store_pages parse a' pages

abbrev pub IsKept : {A : Type 0} → (DepSession → Type 0) → Exec DepSession A → Type 0
IsKept P m = Spec P m (λ _. P) P

pub lift-IsKept : {A : Type 0} (P : DepSession → Type 0) (r : Result A) → IsKept P (lift r)
lift-IsKept P r = Spec-lift _ r (λ a e s h. h) (λ s h. h)

-- One device, by what the query for its serial number answers.
module _ (P : DepSession → Type 0) (parse : DateParser) (device : Fields)
    (F : Value → Result Device → DepSession → Type 0)
    (query : (v : Value) (s : DepSession)
      → P s
      → F v (one (keep (has_serial v) s.working.db.devices)) s)
    (found : (v : Value)
      → item "serial_number" device ≡ ok v
      → (r : Result Device) → Spec (F v r) (store_found parse device r) (λ _. P) P) where
  operation-IsKept :
      (b : Bool)
      → IsKept P
          (if b then (do op ← lift (item "op_type" device); lift (operation_of op)) else pure tt)
  operation-IsKept b =
      Spec-if _ b _ _
        (λ _.
          Spec-bind (λ _. P) _ (lift (item "op_type" device)) _ (lift-IsKept P _)
            (λ op. lift-IsKept P (operation_of op)))
        (λ _. Spec-pure _ tt (λ s h. h))

  pub device-IsKept : IsKept P (store_device parse device)
  unfolding store_device
  device-IsKept =
      Spec-bind (λ _. P) _ _ _ (operation-IsKept (contains "op_type" device))
        λ _.
          Spec-bind (λ v s. P s × (item "serial_number" device ≡ ok v)) _
            (lift (item "serial_number" device)) _ (Spec-lift _ _ (λ v e s h. (h, e)) (λ s h. h))
            λ v. record {
              at = λ s h.
                  (found v h.1 (one (keep (has_serial v) s.working.db.devices))).at s
                    (query v s h.0);
            }

-- A property that does not read the working tables but for the accounts.
module _ (P : DepSession → Type 0) (parse : DateParser)
    (ignored : (s : DepSession) (db : Db)
      → P s
      → P (record s { working = record s.working { db = db } })) where
  insert_dep-IsKept : (d : Device) → IsKept P (insert_dep d)
  unfolding insert_dep
  insert_dep-IsKept d =
      Spec-bind (λ _. P) _ (gets (λ s. any (λ e. e.id == d.id) s.working.db.devices)) _
        (record { at = λ s h. h })
        λ taken.
          Spec-if _ taken (raise integrity_error) (change_tables (add_row d))
            (λ _. Spec-raise _ integrity_error (λ s h. h))
            (λ _. record { at = λ s h. ignored s (with_row d s.working.db) h })

  found-IsKept : (device : Fields) (r : Result Device) → IsKept P (store_found parse device r)
  unfolding store_found add_device change_device
  found-IsKept device (ok d) =
      let (r, d') = update_device parse device d in
      Spec-bind (λ _. P) _ (lift r) _ (lift-IsKept P r) (λ _. record { at = λ s h. ignored s _ h })
  found-IsKept device (err no_result_found) = record {
    at = λ s h.
        let (r, device') = prepare_device parse device in
        (Spec-bind (λ _. P) _ (lift r) _ (lift-IsKept P r)
            (λ _.
              Spec-bind (λ _. P) _ (lift (dep_device s.working.db.next_device_id device'))
                insert_dep (lift-IsKept P (dep_device s.working.db.next_device_id device'))
                insert_dep-IsKept)).at
          s h;
  }
  found-IsKept device (err e) = Spec-raise _ e (λ s h. h)

  pub device-IsIgnored : (device : Fields) → IsKept P (store_device parse device)
  device-IsIgnored device =
      device-IsKept P parse device (λ v r. P) (λ v s h. h) (λ v e r. found-IsKept device r)

-- The devices of a page, where U holds of each of them.
abbrev pub ItemsWithin : (Fields → Type 0) → Items → Type 0
ItemsWithin U nil = Unit
ItemsWithin U (cons (dict d) items) = U d × ItemsWithin U items
ItemsWithin U (cons v items) = Unit

abbrev pub ValueWithin : (Fields → Type 0) → Value → Type 0
ValueWithin U (arr items) = ItemsWithin U items
ValueWithin U v = Unit

abbrev pub PageWithin : (Fields → Type 0) → Fields → Type 0
PageWithin U page = (v : Value) → item "devices" page ≡ ok v → ValueWithin U v

module _ (U : Fields → Type 0) (P : DepSession → Type 0) (parse : DateParser)
    (device : (d : Fields) → U d → IsKept P (store_device parse d)) where
  items-IsKept : (items : Items) → ItemsWithin U items → IsKept P (store_items parse items)
  unfolding store_items
  items-IsKept nil w = Spec-pure _ tt (λ s h. h)
  items-IsKept (cons (dict d) items) w =
      Spec-bind (λ _. P) _ (store_device parse d) _ (device d w.0) (λ _. items-IsKept items w.1)
  items-IsKept (cons v items) w = Spec-raise _ type_error (λ s h. h)

  devices-IsKept : (v : Value) → ValueWithin U v → IsKept P (store_devices parse v)
  unfolding store_devices
  devices-IsKept (arr items) w = items-IsKept items w
  devices-IsKept v w = Spec-raise _ type_error (λ s h. h)

  PageWithin-Spec :
      (Q : DepAccount → DepSession → Type 0) (a : DepAccount) (page : Fields)
      → PageWithin U page
      → ((t : ℕ)
          → Spec P
              (do put_account (advanced page t a); commit_tables; pure (advanced page t a))
              Q
              P)
      → Spec P (store_page parse a page) Q P
  unfolding store_page
  PageWithin-Spec Q a page w finish =
      Spec-bind (λ v s. P s × ValueWithin U v) _ (lift (item "devices" page)) _
        (Spec-lift _ (item "devices" page) (λ v e s h. (h, w v e)) (λ s h. h))
        λ devices.
          Spec-bind (λ _. P) _ (store_devices parse devices) _
            (record { at = λ s h. (devices-IsKept devices h.1).at s h.0 })
            λ _.
              Spec-bind (λ _. P) _ (lift (item "cursor" page)) _
                (lift-IsKept P (item "cursor" page))
                λ _.
                  Spec-bind (λ _. P) _ (lift (item "fetched_until" page)) _
                    (lift-IsKept P (item "fetched_until" page))
                    λ until.
                      Spec-bind (λ _. P) _ (lift (parse until)) _ (lift-IsKept P (parse until))
                        finish

  pub PageWithin-IsKept :
      (account : (a : DepAccount) → IsKept P (put_account a)) (commits : IsKept P commit_tables)
      (a : DepAccount) (page : Fields)
      → PageWithin U page
      → IsKept P (store_page parse a page)
  PageWithin-IsKept account commits a page w =
      PageWithin-Spec (λ _. P) a page w
        λ t.
          Spec-bind (λ _. P) _ (put_account (advanced page t a)) _ (account (advanced page t a))
            λ _.
              Spec-bind (λ _. P) _ commit_tables _ commits
                (λ _. Spec-pure _ (advanced page t a) (λ s h. h))

all_items : (items : Items) → ItemsWithin (λ _. Unit) items
all_items nil = tt
all_items (cons (dict d) items) = (tt, all_items items)
all_items (cons v items) = tt

all_values : (v : Value) → ValueWithin (λ _. Unit) v
all_values (arr items) = all_items items
all_values v = tt

module _ (P : DepSession → Type 0) (parse : DateParser)
    (device : (d : Fields) → IsKept P (store_device parse d)) where
  -- A page, by what its last statements make of the account.
  pub page-Spec :
      (Q : DepAccount → DepSession → Type 0) (a : DepAccount) (page : Fields)
      → ((t : ℕ)
          → Spec P
              (do put_account (advanced page t a); commit_tables; pure (advanced page t a))
              Q
              P)
      → Spec P (store_page parse a page) Q P
  page-Spec Q a page =
      PageWithin-Spec (λ _. Unit) P parse (λ d u. device d) Q a page (λ v e. all_values v)

  module _ (account : (a : DepAccount) → IsKept P (put_account a))
      (commits : IsKept P commit_tables) where
    pub page-IsKept : (a : DepAccount) (page : Fields) → IsKept P (store_page parse a page)
    page-IsKept a page =
        PageWithin-IsKept (λ _. Unit) P parse (λ d u. device d) account commits a page
          (λ v e. all_values v)

    pub pages-IsKept : (a : DepAccount) (pages : List Fields) → IsKept P (store_pages parse a pages)
    unfolding store_pages
    pages-IsKept a [] = Spec-pure _ a (λ s h. h)
    pages-IsKept a (page ∷ pages) =
        Spec-bind (λ _. P) _ (store_page parse a page) _ (page-IsKept a page)
          (λ a'. pages-IsKept a' pages)
