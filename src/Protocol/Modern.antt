-- ===== src/Protocol/Modern.antt =====
-- mcp/modern.rs: the eras of the protocol, by what a request says of its version.
use dravr_tronc.Common.{
  ℕ, Bool, false, not, ◌&&◌, Option, none, some, String, List, [], ◌∷◌, ◌==◌, nat_eq, list_eq,
  string_eq, leb, if◌then◌else◌,
}
use dravr_tronc.Protocol.Text.{text_of}
use dravr_tronc.Common.Lists.{any}
use dravr_tronc.Common.Bytes.{text_le}
use dravr_tronc.Guard.Text.{Text}
use dravr_tronc.Auth.{trim}
use dravr_tronc.Json.{Value, Fields, string, number, field, end, get, as_str}

abbrev pub protocol_version_header : String
protocol_version_header = "mcp-protocol-version"

abbrev pub modern_revision : String
modern_revision = "2026-07-28"

abbrev pub removed_methods : List String
removed_methods =
    "initialize" ∷ "ping" ∷ "logging/setLevel" ∷ "resources/subscribe" ∷ "resources/unsubscribe"
    ∷ []

abbrev pub is_digit : ℕ → Bool
is_digit c = leb b'0' c && leb c b'9'

-- The form of a date: digits, with dashes after the fourth and the sixth.
unfoldable pub is_shaped : Text → Bool
is_shaped (a ∷ b ∷ c ∷ d ∷ e ∷ f ∷ g ∷ h ∷ i ∷ j ∷ []) =
    is_digit a
    && is_digit b
    && is_digit c
    && is_digit d
    && (e == b'-')
    && is_digit f
    && is_digit g
    && (h == b'-')
    && is_digit i
    && is_digit j
is_shaped _ = false

unfoldable pub is_modern_revision : Text → Bool
is_modern_revision version = is_shaped version && text_le (text_of modern_revision) version

abbrev pub cacheable_result_methods : List String
cacheable_result_methods =
    "tools/list" ∷ "resources/list" ∷ "resources/templates/list" ∷ "prompts/list" ∷ "resources/read"
    ∷ []

abbrev pub is_one_of : String → List String → Bool
is_one_of m ms = any (λ n. n == m) ms

-- `Map::entry` and `or_insert_with`.
unfoldable pub or_insert : String → Value → Fields → Fields
or_insert k v end = field k v end
or_insert k v (field j w fs) =
    let rest = or_insert k v fs in if j == k then field j w fs else field j w rest

unfoldable pub frame_cacheable_result : String → Fields → Fields
frame_cacheable_result method result =
    if is_one_of method cacheable_result_methods
    then or_insert "cacheScope" (string "private") (or_insert "ttlMs" (number "0") result)
    else result

pub record ModernRequestMeta : Type 0 where
  pub version : String
  pub client_capabilities : Value
  pub log_level : Option String

pub data ModernMeta : Type 0 where
  legacy : ModernMeta
  modern : ModernRequestMeta → ModernMeta
  malformed header_mismatched : ModernMeta

abbrev pub and_get : String → Option Value → Option Value
and_get k none = none
and_get k (some v) = get k v

abbrev pub and_str : Option Value → Option String
and_str none = none
and_str (some v) = as_str v

abbrev pub version_key : String
version_key = "io.modelcontextprotocol/protocolVersion"

abbrev pub capabilities_key : String
capabilities_key = "io.modelcontextprotocol/clientCapabilities"

abbrev pub log_level_key : String
log_level_key = "io.modelcontextprotocol/logLevel"

-- The client's name and version, which nothing here reads, are left out.
unfoldable pub from_params : Option Value → ModernMeta
from_params params =
    let meta = and_get "_meta" params in
    elim (and_str (and_get version_key meta)) [
      | none ↦ legacy
      | some version ↦ elim (and_get capabilities_key meta) [
        | none ↦ malformed
        | some capabilities ↦ modern (record {
          version = version;
          client_capabilities = capabilities;
          log_level = and_str (and_get log_level_key meta);
        })
      ]
    ]

abbrev pub held_to : Text → ModernMeta → ModernMeta
held_to header (modern meta) =
    if not (text_of meta.version == header) then header_mismatched else modern meta
held_to header legacy = if is_modern_revision header then malformed else legacy
held_to header malformed = malformed
held_to header header_mismatched = header_mismatched

-- `ModernRequestMeta::detect`.
unfoldable pub detect : Option String → Option Value → ModernMeta
detect none params = from_params params
detect (some header) params = held_to (trim (text_of header)) (from_params params)
