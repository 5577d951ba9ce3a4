-- ===== src/Challenge.antt =====
-- mcp/resource_metadata/challenge.rs: the challenge of a refused request. A text is the list of its
-- characters.
pub mod Quoting
use dravr_tronc.Common.{Option, none, some, List, [], ◌∷◌, ◌++◌, ◌||◌, ◌==◌, nat_eq, if◌then◌else◌}
use dravr_tronc.Guard.Text.{Text}
use dravr_tronc.Protocol.Text.{text_of}

pub data BearerError : Type 0 where
  invalid_request invalid_token_error insufficient_scope_error : BearerError

abbrev pub error_text : BearerError → Text
error_text invalid_request = text_of "invalid_request"
error_text invalid_token_error = text_of "invalid_token"
error_text insufficient_scope_error = text_of "insufficient_scope"

pub record BearerChallenge : Type 0 where
  pub resource_metadata : Text
  pub error : Option BearerError
  pub scope : Option Text

abbrev pub new : Text → BearerChallenge
new url = record { resource_metadata = url; error = none; scope = none }

abbrev pub with_error : BearerError → BearerChallenge → BearerChallenge
with_error e c = record c { error = some e }

abbrev pub with_scope : Text → BearerChallenge → BearerChallenge
with_scope s c = record c { scope = some s }

abbrev pub invalid_token : BearerChallenge → BearerChallenge
invalid_token c = with_error invalid_token_error c

abbrev pub insufficient_scope : Text → BearerChallenge → BearerChallenge
insufficient_scope s c = with_scope s (with_error insufficient_scope_error c)

unfoldable pub escaped : Text → Text
escaped [] = []
escaped (c ∷ cs) =
    let rest = escaped cs in if (c == b'"') || (c == b'\\') then b'\\' ∷ c ∷ rest else c ∷ rest

-- What is written, before what follows.
abbrev pub write_quoted : Text → Text → Text
write_quoted value after = b'"' ∷ escaped value ++ b'"' ∷ after

abbrev pub bearer_key : Text
bearer_key = text_of "Bearer resource_metadata="

abbrev pub error_key : Text
error_key = text_of ", error="

abbrev pub scope_key : Text
scope_key = text_of ", scope="

abbrev pub write_scope : Option Text → Text
write_scope none = []
write_scope (some scope) = scope_key ++ write_quoted scope []

abbrev pub write_error : Option BearerError → Text → Text
write_error none after = after
write_error (some e) after = error_key ++ write_quoted (error_text e) after

-- `Display` of a challenge.
unfoldable pub display : BearerChallenge → Text
display c =
    bearer_key ++ write_quoted c.resource_metadata (write_error c.error (write_scope c.scope))
