-- ===== src/Vpp.antt =====
-- commandment/vpp: the client of the Volume Purchase Programme service. The HTTP session is an
-- argument `post`, from a URL and a JSON body to the decoded reply or to what it raises.
pub mod Requests
pub mod Operation
pub mod Cursor
use commandment.Python.Values.{Fields, Value}
use commandment.Python.Exec.{Result}

abbrev pub Post : Type 0
Post = Value → Fields → Result Fields

-- The fields of VPP.
pub record Vpp : Type 0 where
  pub stoken : Value
  pub service_config : Fields
