-- ===== src/Tests/Endings.antt =====
-- The end of a session and the challenge of a refused caller, on concrete inputs.
use dravr_tronc.Common.{◌≡◌, ◌⊎◌, false, Option, none, some, String, [], ◌∷◌, Result, ok}
use dravr_tronc.Guard.Text.{Text}
use dravr_tronc.Guard.Deny.{IpAddr}
use dravr_tronc.Http.{HeaderMap}
use dravr_tronc.Session.{Session, ToolContext, no_capabilities}
use dravr_tronc.Session.Store.{World}
use dravr_tronc.Protocol.{JsonRpcRequest}
use dravr_tronc.Challenge.{BearerChallenge, new, insufficient_scope, display}
use dravr_tronc.Challenge.Quoting.{read, read-display}
use dravr_tronc.Transport.Posts.{Transport}
use dravr_tronc.Transport.Endings.{AuthError, handle_mcp_delete}
use dravr_tronc.Transport.Endings.Owned.{EndsOwn, Spares, handle_mcp_delete_owned}

abbrev ann : ToolContext
ann = record { user_id = some "ann"; tenant_id = none }

abbrev hers : Session
hers = record {
  id = some "s";
  user = some "ann";
  tenant = none;
  capabilities = no_capabilities;
  log_level = none;
  last_seen = 1;
  active = 0;
}

abbrev listed : World
listed = record {
  store = record {
    ttl = 100;
    limits = record { total = 2; per_caller = 1 };
    sessions = ("s", 0) ∷ [];
    last_sweep = 1;
  };
  heap = λ r. hers;
  fired = λ r. false;
}

abbrev headers : HeaderMap
headers = ("mcp-session-id", b's' ∷ []) ∷ []

abbrev as_s : Text → String
as_s t = "s"

abbrev no_ip : Text → Option IpAddr
no_ip t = none

abbrev known : JsonRpcRequest → Option Text → Result ToolContext AuthError
known r token = ok ann

abbrev transport : Transport
transport = record { allowed_origins = []; allowed_hosts = none }

handle_mcp_delete_owned_example :
    EndsOwn as_s no_ip known 2 headers listed
      (handle_mcp_delete as_s no_ip known 2 transport headers none listed)
    ⊎ Spares as_s no_ip known 2 listed
        (handle_mcp_delete as_s no_ip known 2 transport headers none listed)
handle_mcp_delete_owned_example =
    handle_mcp_delete_owned as_s no_ip known 2 transport headers none listed

-- A scope that tries to end its own quotes.
abbrev forging : BearerChallenge
forging = insufficient_scope (b'"' ∷ b',' ∷ b'\\' ∷ []) (new (b'u' ∷ []))

read-display_example : read (display forging) ≡ some forging
read-display_example = read-display forging
