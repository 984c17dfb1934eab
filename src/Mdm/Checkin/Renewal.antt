-- ===== src/Mdm/Checkin/Renewal.antt =====
-- A device that checks out and enrolls again.
use commandment.Python.Exec.{Exec}
use commandment.Store.Rows.{Device, Db}
use commandment.Store.Session.{Session, save, device_key}
use commandment.Apns.Push.{Apns}
use commandment.Mdm.Queue.{Services}
use commandment.Mdm.Checkin.{checked_out}

abbrev left : Services → Device → Db → Db
left services d db = record db { devices = save device_key (checked_out services d) db.devices }
