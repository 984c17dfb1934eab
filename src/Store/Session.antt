-- ===== src/Store/Session.antt =====
-- The database session of one request: queries, changes of rows by their key, and commits.
use commandment.Base.{ℕ, List, [], ◌∷◌, ◌==◌, if◌then◌else◌}
use commandment.Python.Exec.{Result, ok, err, Exec, no_result_found, multiple_results_found}
use commandment.Store.Rows.{Device, CommandRow, Db}

pub record Session : Type 0 where
  pub stored : Db
  pub working : Db
  -- how many UUIDs the request has drawn
  pub draws : ℕ

-- A request starts from what is stored.
unfoldable pub begin : Db → Session
begin db = record { stored = db; working = db; draws = 0 }

unfoldable pub commit : Exec Session (Unit {0})
commit s = (ok tt, record s { stored = s.working })

abbrev pub change : (Db → Db) → Exec Session (Unit {0})
change f s = (ok tt, record s { working = f s.working })

-- query(…).one()
unfoldable pub one {ℓ} : {A : Type ℓ} → List A → Result A
one [] = err no_result_found
one (x ∷ []) = ok x
one (x ∷ y ∷ xs) = err multiple_results_found

-- The changed row takes the place of the row with its key.
unfoldable pub save : {A : Type 0} → (A → ℕ) → A → List A → List A
save key r [] = []
save key r (x ∷ xs) = (if key x == key r then r else x) ∷ save key r xs

abbrev pub device_key : Device → ℕ
device_key d = d.id

abbrev pub command_key : CommandRow → ℕ
command_key c = c.id

unfoldable pub put_device : Device → Exec Session (Unit {0})
unfolding save
put_device d = change (λ db. record db { devices = save device_key d db.devices })

unfoldable pub put_command : CommandRow → Exec Session (Unit {0})
unfolding save
put_command c = change (λ db. record db { commands = save command_key c db.commands })
