-- ===== src/Hmi/Display.antt =====
-- `Display` of `ValidationError` and `ParseError`, crates/mirum-vm-hmi/src/lib.rs.
use mirum.Base.{String, ◌<>◌, List, [], ◌∷◌}
use mirum.Hmi.Validation.{ValidationError}
use mirum.Hmi.Decode.{ParseError, json, validation}

-- `[String]::join`
unfoldable pub join : String → List String → String
join separator [] = ""
join separator (text ∷ []) = text
join separator (text ∷ next ∷ texts) = text <> separator <> join separator (next ∷ texts)

unfoldable pub display_issues : ValidationError → String
display_issues issues = "invalid Mirum VM configuration: " <> join "; " issues

unfoldable pub display : ParseError → String
display (json error) = "invalid JSON: " <> error
display (validation error) = display_issues error
