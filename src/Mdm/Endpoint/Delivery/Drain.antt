-- ===== src/Mdm/Endpoint/Delivery/Drain.antt =====
-- A device that polls Idle empties its queue, one command to a poll.
use commandment.Base.{
  ℕ, zero, suc, ◌<◌, ◌≡◌, refl, subst, true, false, some, List, [], ◌∷◌, map, arith, keep, length,
  All, All-IsIn, ◌==◌, Bool-cases, inl, inr,
}
use commandment.Python.Values.{Value, Fields}
use commandment.Python.Exec.{Result, ok}
use commandment.Store.Rows.{Device, CommandRow, Db}
use commandment.Store.Session.{save, device_key, command_key}
use commandment.Store.Keys.{Distinct, Distinct-save, keep-passes, length-keep-save, keep-save}
use commandment.Mdm.Commands.{Command, to_dict}
use commandment.Mdm.Commands.Registry.{new_request_type}
use commandment.Mdm.Queue.{Services, is_pending, older, first_by_id, next_command}
use commandment.Mdm.Queue.Oldest.{IsOldest, next_command-IsOldest}
use commandment.Mdm.Endpoint.{Reply, plist, Handle, fields_have_none, plistify, is_device, serve}
use commandment.Mdm.Endpoint.Delivery.{idle_message, seen, noted, sent_row, serve-idle_deliver}

-- The replies to `n` Idle polls in a row, and the tables that they leave.
unfoldable pub idle_polls : Services → Handle → Value → ℕ → Db → List (Result Reply) × Db
idle_polls services handle udid zero db = ([], db)
idle_polls services handle udid (suc n) db =
    let (reply, db') = serve services handle (some (idle_message udid)) db in
    let (replies, last) = idle_polls services handle udid n db' in (reply ∷ replies, last)

abbrev pub pending : Device → Db → List CommandRow
pending d db = keep (is_pending d.id) db.commands

-- One device has the UDID, and the keys of the tables are distinct.
pub record IsKnown (udid : Value) (d : Device) (db : Db) : Type 0 where
  pub found : keep (is_device udid) db.devices ≡ d ∷ []
  pub device_keys : Distinct (map device_key db.devices)
  pub command_keys : Distinct (map command_key db.commands)

-- The row can be built as a command and written as a plist.
abbrev pub Builds : Services → CommandRow → Type 0
Builds services row =
    (cmd : Command) × (output : Fields) × (new_request_type row.request_type row.parameters row.uuid
      ≡ ok cmd)
    × (to_dict services.codec cmd ≡ ok output)
    × (fields_have_none output ≡ false)

abbrev pub QueueBuilds : Services → ℕ → List CommandRow → Type 0
QueueBuilds services d rows = All (λ c. is_pending d c ≡ true → Builds services c) rows

abbrev pub IsPlist : Result Reply → Type 0
IsPlist (ok (plist d)) = Unit
IsPlist _ = ⊥

sent_row-not_pending :
    (services : Services) (d : ℕ) (row : CommandRow) → is_pending d (sent_row services row) ≡ false
unfolding is_pending
sent_row-not_pending services d row = ground arith

All-save :
    {A : Type 0} (key : A → ℕ) (P : A → Type 0) (r : A) (xs : List A)
    → P r
    → All P xs
    → All P (save key r xs)
unfolding save
All-save key P r [] p h = tt
All-save key P r (x ∷ xs) p h = elim (Bool-cases (key x == key r)) [
  | inl same ↦ rw same (p, All-save key P r xs p h.1)
  | inr other ↦ rw other (h.0, All-save key P r xs p h.1)
]

next_command-some :
    (d : ℕ) (rows : List CommandRow)
    → 0 < length (keep (is_pending d) rows)
    → (row : CommandRow) × (next_command d rows ≡ some row)
unfolding next_command
next_command-some d rows h = go (keep (is_pending d) rows) h
  where
    go :
        (kept : List CommandRow)
        → 0 < length kept
        → (row : CommandRow) × (first_by_id kept ≡ some row)
    go [] h = absurd (omega arith)
    go (c ∷ cs) h = (older c (first_by_id cs), refl)

module _ (services : Services) (handle : Handle) (udid : Value) where
  abbrev after_delivery : Device → CommandRow → Db → Db
  after_delivery d row db = record (noted services d db) {
    commands = save command_key (sent_row services row) db.commands;
  }

  module _ (d : Device) (row : CommandRow) (db : Db)
      (next : next_command d.id db.commands ≡ some row) where
    chosen : IsOldest d.id db.commands (some row)
    chosen = subst (IsOldest d.id db.commands) next (next_command-IsOldest d.id db.commands)

    after_delivery-IsKnown :
        IsKnown udid d db → IsKnown udid (seen services d) (after_delivery d row db)
    unfolding is_device
    after_delivery-IsKnown h = record {
      found =
          keep-save device_key (is_device udid) d (seen services d) db.devices refl h.device_keys
            h.found (keep-passes device_key (is_device udid) d [] db.devices h.found);
      device_keys = Distinct-save device_key (seen services d) db.devices h.device_keys;
      command_keys = Distinct-save command_key (sent_row services row) db.commands h.command_keys;
    }

    after_delivery-QueueBuilds :
        QueueBuilds services d.id db.commands
        → QueueBuilds services d.id (after_delivery d row db).commands
    after_delivery-QueueBuilds h =
        All-save command_key (λ c. is_pending d.id c ≡ true → Builds services c)
          (sent_row services row) db.commands (λ p. cc (sent_row-not_pending services d.id row)) h

    after_delivery-pending :
        IsKnown udid d db
        → suc (length (pending d (after_delivery d row db))) ≡ length (pending d db)
    after_delivery-pending h =
        length-keep-save command_key (is_pending d.id) row (sent_row services row) db.commands refl
          h.command_keys chosen.1 chosen.0 (sent_row-not_pending services d.id row)

-- Where one device row has the UDID, the keys of the tables are distinct and each queued command
-- of the device can be built and written as a plist, as many Idle polls as there are queued
-- commands are each answered by a command, and leave no command queued for the device.
pub idle_polls_drain :
    (services : Services) (handle : Handle) (udid : Value) (n : ℕ) (d : Device) (db : Db)
    → IsKnown udid d db
    → QueueBuilds services d.id db.commands
    → length (pending d db) ≡ n
    → let (replies, last) = idle_polls services handle udid n db in
      All IsPlist replies × (length (pending d last) ≡ 0)
unfolding idle_polls plistify
idle_polls_drain services handle udid zero d db known builds count = (tt, count)
idle_polls_drain services handle udid (suc n) d db known builds count =
    let (row, next) = next_command-some d.id db.commands (omega arith) in
    let oldest = chosen services handle udid d row db next in
    let (cmd, output, built, written, writable) =
      All-IsIn (λ c. is_pending d.id c ≡ true → Builds services c) row db.commands builds oldest.1
        oldest.0 in
    let rest =
      idle_polls_drain services handle udid n (seen services d)
        (after_delivery services handle udid d row db)
        (after_delivery-IsKnown services handle udid d row db next known)
        (after_delivery-QueueBuilds services handle udid d row db next builds)
        (omega (arith, after_delivery-pending services handle udid d row db next known)) in
    rw
      (
        serve-idle_deliver services handle udid d db known.found row next cmd output built written,
        plistify,
        writable,
      )
      ((tt, rest.0), rest.1)
