-- ===== src/Vpp/Requests/Saving.antt =====
-- Which license operations reach the service.
use commandment.Vpp.{Vpp}
