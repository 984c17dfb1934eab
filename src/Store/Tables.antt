-- ===== src/Store/Tables.antt =====
-- The invariant of the tables: keys are distinct and below the next number, and no UDID stands on
-- two device rows.
use mathlib.Core.List.{map-append, append-nil}
use commandment.Base.{
  suc, ◌≤◌, ◌<◌, ◌≡◌, ap, subst, ◌∙◌, Bool, List, [], ◌∷◌, ◌++◌, map, arith, keep, keep-append,
  length, All, IsIn, Bool-cases, inl, inr,
}
use commandment.Python.Values.{Value, sql_eq, sql_eq_sound}
use commandment.Store.Rows.{Device, CommandRow, Db}
use commandment.Store.Session.{Session, save, device_key, command_key}
use commandment.Store.Keys.{Distinct, map-save, length-keep-save_same, Distinct-append, below_suc}

abbrev pub has_udid : Value → Device → Bool
has_udid u d = sql_eq d.udid u

pub record IsSound (db : Db) : Type 0 where
  pub device_keys : Distinct (map device_key db.devices)
  pub device_fresh : All (λ k. k < db.next_device_id) (map device_key db.devices)
  pub udids : (u : Value) → length (keep (has_udid u) db.devices) ≤ 1
  pub command_keys : Distinct (map command_key db.commands)
  pub command_fresh : All (λ k. k < db.next_command_id) (map command_key db.commands)

-- Tables with the same devices and commands.
pub record HasSame (db db' : Db) : Type 0 where
  pub devices : db'.devices ≡ db.devices
  pub next_device_id : db'.next_device_id ≡ db.next_device_id
  pub commands : db'.commands ≡ db.commands
  pub next_command_id : db'.next_command_id ≡ db.next_command_id

pub HasSame-trans : (a b c : Db) → HasSame a b → HasSame b c → HasSame a c
HasSame-trans a b c h k = record {
  devices = k.devices ∙ h.devices;
  next_device_id = k.next_device_id ∙ h.next_device_id;
  commands = k.commands ∙ h.commands;
  next_command_id = k.next_command_id ∙ h.next_command_id;
}

pub HasSame-IsSound : (db db' : Db) → HasSame db db' → IsSound db → IsSound db'
HasSame-IsSound db db' same h = record {
  device_keys = rw same.devices h.device_keys;
  device_fresh = rw (same.devices, same.next_device_id) h.device_fresh;
  udids = λ u. rw same.devices (h.udids u);
  command_keys = rw same.commands h.command_keys;
  command_fresh = rw (same.commands, same.next_command_id) h.command_fresh;
}

-- A changed device row that keeps its key and its UDID.
pub save_device-IsSound :
    (d d' : Device) (db : Db)
    → IsIn d db.devices
    → d'.id ≡ d.id
    → d'.udid ≡ d.udid
    → IsSound db
    → IsSound (record db { devices = save device_key d' db.devices })
save_device-IsSound d d' db m key udid h = record {
  device_keys = rw (map-save device_key d' db.devices) h.device_keys;
  device_fresh = rw (map-save device_key d' db.devices) h.device_fresh;
  udids = λ u.
      rw
        (length-keep-save_same device_key (has_udid u) d d' db.devices key h.device_keys m
          (ap (λ v. sql_eq v u) udid))
        (h.udids u);
  command_keys = h.command_keys;
  command_fresh = h.command_fresh;
}

pub save_command-IsSound :
    (c : CommandRow) (db : Db)
    → IsSound db
    → IsSound (record db { commands = save command_key c db.commands })
save_command-IsSound c db h = record {
  device_keys = h.device_keys;
  device_fresh = h.device_fresh;
  udids = h.udids;
  command_keys = rw (map-save command_key c db.commands) h.command_keys;
  command_fresh = rw (map-save command_key c db.commands) h.command_fresh;
}

pub append_command-IsSound :
    (c : CommandRow) (db : Db)
    → c.id ≡ db.next_command_id
    → IsSound db
    → IsSound
        (record db { commands = db.commands ++ c ∷ []; next_command_id = suc db.next_command_id })
append_command-IsSound c db key h = record {
  device_keys = h.device_keys;
  device_fresh = h.device_fresh;
  udids = h.udids;
  command_keys =
      rw (map-append, key) (Distinct-append db.next_command_id _ h.command_keys h.command_fresh);
  command_fresh = rw (map-append, key) (below_suc db.next_command_id _ h.command_fresh);
}

one_more :
    (u : Value) (d : Device) (devices : List Device)
    → length (keep (has_udid u) devices) ≤ 1
    → keep (has_udid d.udid) devices ≡ []
    → length (keep (has_udid u) (devices ++ d ∷ [])) ≤ 1
one_more u d devices h absent = rw keep-append (elim (Bool-cases (sql_eq d.udid u)) [
  | inl same ↦ rw same (
      subst (λ v. length (keep (has_udid v) devices ++ d ∷ []) ≤ 1) (sql_eq_sound d.udid u same)
        (rw absent (omega arith)))
  | inr other ↦ rw (other, append-nil) h
])

pub append_device-IsSound :
    (d : Device) (db : Db)
    → d.id ≡ db.next_device_id
    → keep (has_udid d.udid) db.devices ≡ []
    → IsSound db
    → IsSound (record db { devices = db.devices ++ d ∷ []; next_device_id = suc db.next_device_id })
append_device-IsSound d db key absent h = record {
  device_keys =
      rw (map-append, key) (Distinct-append db.next_device_id _ h.device_keys h.device_fresh);
  device_fresh = rw (map-append, key) (below_suc db.next_device_id _ h.device_fresh);
  udids = λ u. one_more u d db.devices (h.udids u) absent;
  command_keys = h.command_keys;
  command_fresh = h.command_fresh;
}

-- The invariant of a session, and of a session that holds a device row.
pub record IsGood (s : Session) : Type 0 where
  pub stored : IsSound s.stored
  pub working : IsSound s.working

pub record HasDevice (d : Device) (s : Session) : Type 0 where
  pub good : IsGood s
  pub row : IsIn d s.working.devices
