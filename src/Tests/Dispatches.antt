-- ===== src/Tests/Dispatches.antt =====
-- mcp/server.rs, mcp/tool.rs and mcp/transport/http.rs on concrete inputs.
use dravr_tronc.Common.{
  suc, ℕ, ◌≡◌, ◌⊎◌, refl, Bool, true, false, Option, none, some, String, List, [], ◌∷◌, ok,
  string_eq, nat_eq, list_eq, ◌==◌,
}
use dravr_tronc.Common.Assoc.{lookup}
use dravr_tronc.Json.{Value, Fields, null, string, number, object, field, end}
use dravr_tronc.Caller.{CallerKey, unconnected}
use dravr_tronc.Session.{Session, no_capabilities}
use dravr_tronc.Guard.Text.{
  Text, split_once, trim_start, trim_end, to_ascii_lowercase, eq_ignore_ascii_case, strip_suffix,
}
use dravr_tronc.Guard.Deny.{IpAddr}
use dravr_tronc.Auth.{trim, is_loopback_host, strip_circumfix}
use dravr_tronc.Http.{HeaderMap, visible}
use dravr_tronc.Tools.{ToolContext, Refused, McpTool, Registry, execute, definition_of}
use dravr_tronc.Tools.Access.{RunsOrRefuses, execute-RunsOrRefuses}
use dravr_tronc.Protocol.{
  JsonRpcRequest, success, is_error, error, header_mismatch, get_metadata, parse_request,
  parse_message, request_of, is_request_id, jsonrpc_version,
}
use dravr_tronc.Protocol.Messages.{IsRequest, parse_request_iff}
use dravr_tronc.Protocol.Modern.{detect, from_params, protocol_version_header}
use dravr_tronc.Server.{World, Host, McpServer, ToolCall, input_schema_of, supports_version}
use dravr_tronc.Server.Handlers.{call_of, read_call, tool_call_of, handle_tools_call, run_call}
use dravr_tronc.Server.Handlers.Mirrors.{AllMirrored, handle_tools_call_mirrors}
use dravr_tronc.Server.Dispatch.{Clock, route, dispatch, completes, process_modern}
use dravr_tronc.Server.Dispatch.Gates.{Gated, route-Gated}
use dravr_tronc.Server.Dispatch.Answered.{IsAnswered, dispatch_answers}
use dravr_tronc.Transport.Hosts.{
  Authority, check_host, request_authority, get_all, is_host_allowed, split_authority, is_port,
  number_of,
}
use dravr_tronc.Transport.Hosts.Authorities.{IsWritten}
use dravr_tronc.Transport.Hosts.Checks.{Names, IsKnown, check_host_iff}
use dravr_tronc.Transport.Stream.{Dispatch, waits, returns, answer_call}
use dravr_tronc.Transport.Stream.Events.{Delivers, answer_call-Delivers}
use dravr_tronc.Transport.Mirror.{
  Float, Headers, check_param_headers, is_mirrored, mirrored_arguments, walk, header_value, at_path,
  mirrorable, mirrors, decode_header_value, without_suffix,
}
use dravr_tronc.Protocol.Text.{text_of}
use dravr_tronc.Tests.Codec.{chrono, codec}

abbrev caller : CallerKey
caller = record { user = some "ann"; tenant = none; channel = unconnected }

abbrev ctx : ToolContext
ctx = record {
  user_id = some "ann";
  tenant_id = none;
  scopes = [];
  is_admin = false;
  caller = caller;
  session = none;
  parent = false;
  client_capabilities = none;
  input_responses = none;
  request_state = none;
}

abbrev host : Host
host = record {
  tool_key = λ t. [];
  method_handler = λ method id params c w. (w, some (success id null));
  print_refusal = λ why. some (string "refused");
  print_tools = λ ts. some null;
  print_task = λ d. some null;
  print_handle = λ t. some null;
  print_ack = some null;
  print_discover = some null;
  print_initialize = λ version. some (string version);
  print_id = λ id. "1";
  read_level = λ name. none;
}

abbrev server : McpServer
server = record {
  host = host;
  tool_dispatcher = none;
  tools = [];
  supported_versions = "2025-11-25" ∷ "2026-07-28" ∷ [];
  logging = false;
  list_page_size = none;
}

abbrev f64 : Float
f64 = record {
  F = Text;
  of_number = text_of;
  parse = λ t. some t;
  is_equal = λ a b. a == b;
  is_finite = λ a. true;
  is_over_safe_integer = λ a. false;
}

abbrev clock : Clock
clock = record {
  chrono = chrono;
  bus = none;
  now = 1;
  meanwhile = λ m. m;
  codec = codec;
  f64 = f64;
  base64 = λ t. none;
  read_initialize = λ v. none;
}

abbrev nobody : Session
nobody = record {
  id = none;
  user = none;
  tenant = none;
  capabilities = no_capabilities;
  log_level = none;
  last_seen = 0;
  active = 0;
}

abbrev quiet : World
quiet = record {
  in_flight = record { next_serial = 0; entries = []; next_token = 0; fired = λ t. false };
  sessions = λ r. nobody;
  task_manager = none;
}

-- A modern request of a method that the modern revisions have not.
abbrev ping : JsonRpcRequest
ping = record {
  jsonrpc = jsonrpc_version;
  method = "ping";
  params = some (
      object (
        field "_meta"
          (object (
            field "io.modelcontextprotocol/protocolVersion" (string "2026-07-28")
              (field "io.modelcontextprotocol/clientCapabilities" (object end) end)))
          end));
  id = some (number "1");
  headers = none;
  metadata = [];
}

ping_refused : is_error (route clock server ping ctx quiet).1 ≡ true
unfolding is_error route detect get_metadata lookup from_params process_modern supports_version
    error
ping_refused = refl

route-Gated_example :
    Gated clock server ping ctx quiet
      (get_metadata protocol_version_header ping)
      (route clock server ping ctx quiet)
route-Gated_example = route-Gated clock server ping ctx quiet

dispatch_answers_example :
    IsAnswered clock server ping (dispatch clock server completes ping ctx quiet).1
dispatch_answers_example = dispatch_answers clock server ping (number "1") ctx quiet refl refl

-- A tool for admins, which counts its runs.
abbrev reset : McpTool ℕ String
reset = record {
  tool = record { name = "reset"; definition = null; input_schema = null };
  capabilities = record { requires_auth = true; requires_tenant = false; admin_only = true };
  required_scopes = [];
  execute = λ c arguments n. (suc n, "done");
}

abbrev tools : Registry ℕ String
tools = ("reset", reset) ∷ []

abbrev refuse : Refused → String
refuse why = "refused"

reset_there : lookup "reset" tools ≡ some reset
unfolding lookup
reset_there = refl

execute-RunsOrRefuses_example :
    RunsOrRefuses ℕ String refuse reset ctx null 0
      (execute ℕ String refuse "reset" ctx null tools 0)
execute-RunsOrRefuses_example =
    execute-RunsOrRefuses ℕ String refuse "reset" ctx null tools 0 reset reset_there

-- A call that sends 1 and 2, waits, sends 3, and is answered with 4.
abbrev call : Dispatch ℕ
call = waits (1 ∷ 2 ∷ []) (returns (3 ∷ []) (some 4))

answer_call-Delivers_example : Delivers ℕ call (answer_call ℕ call)
answer_call-Delivers_example = answer_call-Delivers ℕ call

abbrev fields : Fields
fields =
    field "jsonrpc" (string "2.0")
      (field "id" (number "7") (field "method" (string "tools/list") end))

abbrev listing : JsonRpcRequest
listing = record {
  jsonrpc = "2.0";
  method = "tools/list";
  params = none;
  id = some (number "7");
  headers = none;
  metadata = [];
}

abbrev always : String → Bool
always n = true

listing_read : parse_request always always (some (object fields)) ≡ ok listing
unfolding parse_request parse_message request_of is_request_id
listing_read = refl

parse_request_iff_example :
    (fs : Fields) × (some (object fields) ≡ some (object fs)) × IsRequest always always fs listing
parse_request_iff_example =
    (parse_request_iff always always (some (object fields)) listing).0 listing_read

-- The host "a", at port 8.
abbrev named : Text
named = b'a' ∷ b':' ∷ b'8' ∷ []

abbrev headers : HeaderMap
headers = ("host", named) ∷ []

abbrev no_ip : Text → Option IpAddr
no_ip t = none

abbrev hosts : List Text
hosts = (b'a' ∷ []) ∷ []

host_fine : check_host no_ip headers none hosts ≡ ok tt
unfolding check_host request_authority is_host_allowed split_authority is_port number_of get_all
    split_once is_loopback_host trim trim_start trim_end visible eq_ignore_ascii_case
    to_ascii_lowercase strip_suffix strip_circumfix
host_fine = refl

check_host_iff_example :
    (authority : Text) × (parts : Authority) × Names headers none authority
    × IsWritten (trim authority) parts
    × IsKnown no_ip hosts parts
check_host_iff_example = (check_host_iff no_ip headers none hosts).0 host_fine

-- A tool whose argument goes into a header, and a call of it.
abbrev schema : Value
schema = object (
    field "properties"
      (object (field "region" (object (field "x-mcp-header" (string "Region") end)) end)) end)

abbrev go : McpTool World (Option Value)
go = record {
  tool = record { name = "go"; definition = null; input_schema = schema };
  capabilities = record { requires_auth = false; requires_tenant = false; admin_only = false };
  required_scopes = [];
  execute = λ c arguments w. (w, some arguments);
}

abbrev regional : McpServer
regional = record server { tools = ("go", go) ∷ [] }

abbrev eu : Value
eu = object (field "region" (string "eu") end)

abbrev going : ToolCall
going = record { name = "go"; arguments = some eu; input_responses = none; request_state = none }

abbrev going_params : Option Value
going_params = some (object (field "name" (string "go") (field "arguments" eu end)))

going_read : call_of going_params ≡ some going
unfolding read_call tool_call_of
going_read = refl

schema_there : input_schema_of regional "go" ctx ≡ some schema
unfolding input_schema_of definition_of lookup
schema_there = refl

abbrev mirror : Headers
mirror = ("mcp-param-region", string "eu") ∷ []

abbrev no_base64 : Text → Option Text
no_base64 t = none

mirror_agrees : check_param_headers f64 no_base64 schema (some eu) mirror true ≡ true
unfolding check_param_headers is_mirrored mirrored_arguments walk header_value at_path mirrorable
    mirrors text_of decode_header_value without_suffix to_ascii_lowercase trim trim_start trim_end
mirror_agrees = refl

handle_tools_call_mirrors_example :
    let out =
      handle_tools_call f64 no_base64 regional none going_params ctx true false
        (some mirror)
        quiet in
    (AllMirrored f64 no_base64 schema going mirror
      × (out ≡ run_call regional none going ctx true false quiet))
    ⊎ (out ≡ (quiet, error none header_mismatch))
handle_tools_call_mirrors_example =
    handle_tools_call_mirrors f64 no_base64 regional none going_params ctx false mirror quiet going
      schema going_read schema_there
