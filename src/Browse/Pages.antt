-- ===== src/Browse/Pages.antt =====
-- browse.rs: a page that was recorded is the answer to the same request.
use Prim.Native.String.{String}
use opcda_bridge.Browse.Calls.{Sessions}
