-- ===== src/Proxy/Cookies/Domain.antt =====
-- Cookies of the gateway are not set for another host.
use Prim.Native.String.{◌++◌ as join}
use relay_workflow_automatio.Prelude.{String}
