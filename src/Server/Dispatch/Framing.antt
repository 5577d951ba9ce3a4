-- ===== src/Server/Dispatch/Framing.antt =====
-- mcp/modern.rs and mcp/server.rs: the fields that a modern result is given.
use dravr_tronc.Common.{
  ◌≡◌, refl, Option, none, some, String, ◌==◌, string_eq, if◌then◌else◌, arith,
}
use dravr_tronc.Json.{Value, Fields, string, number, field, end, get_field}
use dravr_tronc.Protocol.Modern.{
  or_insert, frame_cacheable_result, is_one_of, cacheable_result_methods,
}
use dravr_tronc.Server.Dispatch.{framed_fields}

abbrev pub or_default : Option Value → Option Value → Option Value
or_default (some v) d = some v
or_default none d = d

get_field-or_insert :
    (k j : String) (v : Value) (fs : Fields)
    → get_field k (or_insert j v fs) ≡ or_default (get_field k fs) (if j == k then some v else none)
unfolding or_insert
get_field-or_insert k j v end = refl
get_field-or_insert k j v (field i x fs) = ground (
  arith,
  get_field-or_insert k j v fs,
  string_eq.same_iff i j,
  string_eq.same_iff i k,
  string_eq.same_iff j k,
)

-- What a modern result has where the handler has set nothing.
unfoldable pub default_of : String → String → Option Value
default_of method k =
    let cached =
      if is_one_of method cacheable_result_methods
      then (if "ttlMs" == k
          then some (number "0")
          else if "cacheScope" == k
          then some (string "private")
          else none)
      else none in
    if "resultType" == k then some (string "complete") else cached

-- A modern result keeps every field that the handler has set, says that it is complete where the
-- handler has not said what it is, and, for a method whose results may be cached, that it may not
-- be, where the handler has not said how; it has no other field.
get_field-framed_fields :
    (method k : String) (fs : Fields)
    → get_field k (framed_fields method fs) ≡ or_default (get_field k fs) (default_of method k)
unfolding frame_cacheable_result default_of
get_field-framed_fields method k fs =
    let typed = or_insert "resultType" (string "complete") fs in
    let timed = or_insert "ttlMs" (number "0") typed in
    ground (
      arith,
      get_field-or_insert k "resultType" (string "complete") fs,
      get_field-or_insert k "ttlMs" (number "0") typed,
      get_field-or_insert k "cacheScope" (string "private") timed,
      string_eq.same_iff "resultType" k,
      string_eq.same_iff "ttlMs" k,
      string_eq.same_iff "cacheScope" k,
    )
