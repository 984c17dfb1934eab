-- ===== src/Mdm/Keeps.antt =====
-- How the session's operations and the queue's keep the invariant of the tables.
use commandment.Base.{
  ℕ, ◌≡◌, refl, ap, Bool, true, false, if◌then◌else◌, none, List, [], ◌∷◌, keep, IsIn, arith,
}
use commandment.Python.Values.{Value, end}
use commandment.Python.Exec.{Exn, Result, ok, err, Exec, raise, gets, lift, ◌>>=◌, no_result_found}
use commandment.Python.Spec.{Spec, Spec-lift, Spec-bind, Ends-result}
use commandment.Store.Rows.{Device, CommandRow, Db}
use commandment.Store.Session.{
  Session, commit, change, one, save, device_key, command_key, put_device, put_command,
}
use commandment.Store.Keys.{keep-IsIn, IsIn-save}
use commandment.Store.Tables.{
  HasSame, HasSame-IsSound, IsSound, IsGood, HasDevice, save_device-IsSound, save_command-IsSound,
  append_command-IsSound,
}
use commandment.Mdm.Commands.{
  CommandClass, Command, construct, installed_application_list, certificate_list, security_info,
  profile_list, available_os_updates,
}
use commandment.Mdm.Commands.Queries.{for_platform}
use commandment.Mdm.Queue.{
  Services, enqueue_row, enqueue, draw_uuid, enqueue_plain, platform_of, queue_full_inventory,
}
use commandment.Mdm.Endpoint.{is_device, find_device, with_device}

-- A statement that keeps the invariant, and the device row that the session holds, and whatever
-- it returns.
pub record Keeps {A : Type 0} (m : Exec Session A) : Type 0 where
  pub good : Spec IsGood m (λ _. IsGood) IsGood
  pub device : (d : Device) → Spec (HasDevice d) m (λ _. HasDevice d) IsGood

pub Keeps-change :
    (f : Db → Db)
    → ((db : Db) → IsSound db → IsSound (f db))
    → ((db : Db) → (f db).devices ≡ db.devices)
    → Keeps (change f)
Keeps-change f sound same = record {
  good = record { at = λ s h. record { stored = h.stored; working = sound s.working h.working } };
  device = λ d. record {
    at = λ s h. record {
      good = record { stored = h.good.stored; working = sound s.working h.good.working };
      row = rw same h.row;
    };
  };
}

-- A change of the other tables.
pub Keeps-other : (f : Db → Db) → ((db : Db) → HasSame db (f db)) → Keeps (change f)
Keeps-other f same =
    Keeps-change f (λ db. HasSame-IsSound db (f db) (same db)) (λ db. (same db).devices)

-- The tables that the invariant is about.
abbrev pub core : Db → List Device × ℕ × List CommandRow × ℕ
core db = (db.devices, db.next_device_id, db.commands, db.next_command_id)

pub Keeps-elsewhere : (f : Db → Db) → (λ db. core (f db)) ≡ core → Keeps (change f)
Keeps-elsewhere f same = Keeps-other f (λ db. record {
  devices = ap (λ k. (k db).0) same;
  next_device_id = ap (λ k. (k db).1) same;
  commands = ap (λ k. (k db).2) same;
  next_command_id = ap (λ k. (k db).3) same;
})

-- A value that is read from the session.
pub Keeps-gets : {A : Type 0} (f : Session → A) → Keeps (gets f)
Keeps-gets f = record { good = record { at = λ s h. h }; device = λ d. record { at = λ s h. h } }

pub Keeps-raise : {A : Type 0} (e : Exn) → Keeps (raise {A = A} e)
Keeps-raise e = record {
  good = record { at = λ s h. h };
  device = λ d. record { at = λ s h. h.good };
}

pub Keeps-if :
    {A : Type 0} (b : Bool) (m n : Exec Session A) → Keeps m → Keeps n → Keeps (if b then m else n)
Keeps-if true m n h k = h
Keeps-if false m n h k = k

pub Keeps-commit : Keeps commit
unfolding commit
Keeps-commit = record {
  good = record { at = λ s h. record { stored = h.working; working = h.working } };
  device = λ d. record {
    at = λ s h. record {
      good = record { stored = h.good.working; working = h.good.working };
      row = h.row;
    };
  };
}

pub Keeps-lift : {A : Type 0} (r : Result A) → Keeps (lift r)
Keeps-lift r = record {
  good = Spec-lift _ r (λ a e s h. h) (λ s h. h);
  device = λ d. Spec-lift _ r (λ a e s h. h) (λ s h. h.good);
}

pub Keeps-bind :
    {A B : Type 0} (m : Exec Session A) (f : A → Exec Session B)
    → Keeps m
    → ((a : A) → Keeps (f a))
    → Keeps (m >>= f)
Keeps-bind m f k h = record {
  good = Spec-bind _ _ m f k.good (λ a. (h a).good);
  device = λ d. Spec-bind _ _ m f (k.device d) (λ a. (h a).device d);
}

pub Keeps-put_command : (c : CommandRow) → Keeps (put_command c)
unfolding put_command
Keeps-put_command c =
    Keeps-change (λ db. record db { commands = save command_key c db.commands })
      (save_command-IsSound c) (λ db. refl)

pub Keeps-enqueue : (cmd : Command) (d : ℕ) → Keeps (enqueue cmd d)
unfolding enqueue
Keeps-enqueue cmd d =
    Keeps-change (enqueue_row cmd d) (λ db h. append_command-IsSound _ db refl h) (λ db. refl)

pub Keeps-draw_uuid : (services : Services) → Keeps (draw_uuid services)
unfolding draw_uuid
Keeps-draw_uuid services = record {
  good = record { at = λ s h. record { stored = h.stored; working = h.working } };
  device = λ d. record {
    at = λ s h. record {
      good = record { stored = h.good.stored; working = h.good.working };
      row = h.row;
    };
  };
}

Keeps-enqueue_plain :
    (services : Services) (c : CommandClass) (d : ℕ) → Keeps (enqueue_plain services c d)
unfolding enqueue_plain
Keeps-enqueue_plain services c d =
    Keeps-bind (draw_uuid services) _ (Keeps-draw_uuid services) λ uuid.
      Keeps-bind (lift (construct c uuid end)) _ (Keeps-lift (construct c uuid end))
        λ cmd. Keeps-enqueue cmd d

pub Keeps-queue_full_inventory :
    (services : Services) (d : Device) → Keeps (queue_full_inventory services d)
unfolding queue_full_inventory
Keeps-queue_full_inventory services d =
    Keeps-bind (draw_uuid services) _ (Keeps-draw_uuid services) λ uuid.
      Keeps-bind _ _ (Keeps-enqueue (for_platform uuid (platform_of d) none) d.id) λ _.
        Keeps-bind _ _ (Keeps-enqueue_plain services installed_application_list d.id) λ _.
          Keeps-bind _ _ (Keeps-enqueue_plain services certificate_list d.id) λ _.
            Keeps-bind _ _ (Keeps-enqueue_plain services security_info d.id) λ _.
              Keeps-bind _ _ (Keeps-enqueue_plain services profile_list d.id) λ _.
                Keeps-bind _ _ (Keeps-enqueue_plain services available_os_updates d.id)
                  λ _. Keeps-commit

pub put_device-HasDevice :
    (d d' : Device)
    → d'.id ≡ d.id
    → d'.udid ≡ d.udid
    → Spec (HasDevice d) (put_device d') (λ _. HasDevice d') IsGood
unfolding put_device
put_device-HasDevice d d' key udid = record {
  at = λ s h. record {
    good = record {
      stored = h.good.stored;
      working = save_device-IsSound d d' s.working h.row key udid h.good.working;
    };
    row = IsIn-save device_key d d' s.working.devices key h.row;
  };
}

one-IsIn :
    (p : Device → Bool) (devices kept : List Device) (d : Device)
    → keep p devices ≡ kept
    → one kept ≡ ok d
    → IsIn d devices
unfolding one
one-IsIn p devices [] d k h = cc
one-IsIn p devices (x ∷ []) d k h = keep-IsIn device_key p d [] devices (ground arith)
one-IsIn p devices (x ∷ y ∷ kept) d k h = cc

pub with_device-ok : (r : Result Device) (e : Exn) (d : Device) → with_device r e ≡ ok d → r ≡ ok d
with_device-ok (ok x) e d h = h
with_device-ok (err no_result_found) e d h = cc
with_device-ok (err _) e d h = cc

-- The device that a query answers is in the table.
pub find_device-IsIn :
    (udid : Value) (e : Exn) (s : Session) (d : Device)
    → (find_device udid e s).0 ≡ ok d
    → IsIn d s.working.devices
unfolding find_device
find_device-IsIn udid e s d h =
    one-IsIn (is_device udid) s.working.devices _ d refl (with_device-ok _ e d h)

pub find_device-HasDevice :
    (udid : Value) (e : Exn) → Spec IsGood (find_device udid e) HasDevice IsGood
find_device-HasDevice udid e = record {
  at = λ s h.
      unfold find_device in
      Ends-result HasDevice IsGood _ s
        (λ d found. record { good = h; row = find_device-IsIn udid e s d found }) h;
}
