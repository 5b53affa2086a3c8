-- ===== src/Tests/Images.antt =====
-- The theorems on images and their decoding, at the sample.
use mirum.Base.{◌<>◌, ◌≡◌, ◌≢◌, refl, ◌↔◌, false, some, [], All, Distinct, ok}
use mirum.Base.Text.{components, is_absolute}
use mirum.Hmi.Types.{schema_version, machine_image_kind, referenced_paths}
use mirum.Hmi.Json.{Header}
use mirum.Hmi.Validation.{is_unsafe_path}
use mirum.Hmi.Validate.{validate}
use mirum.Hmi.Spec.{IsValid, IsBelow}
use mirum.Hmi.Valid.{validate_iff}
use mirum.Hmi.Decode.{from_json, from_json_iff}
use mirum.Hmi.Paths.{validate-referenced_paths, is_unsafe_path-append_slash}
use mirum.Tests.Samples.{json, image, from_json-image}

validate_iff_example : (validate json image ≡ ok tt) ↔ IsValid image
validate_iff_example = validate_iff json image

from_json_iff_example : (from_json json [] ≡ ok image) ↔ (
    (h : Header) × (json.header [] ≡ ok h)
    × (h.schema_version ≡ schema_version)
    × (h.kind ≡ some machine_image_kind)
    × (json.image [] ≡ ok image)
    × IsValid image)
from_json_iff_example = from_json_iff json [] image

validate-referenced_paths_example :
    Distinct (referenced_paths image) × All IsBelow (referenced_paths image)
validate-referenced_paths_example =
    validate-referenced_paths json image
      ((validate_iff json image).1 ((from_json_iff json [] image).0 from_json-image).5)

is_unsafe_path-append_slash_example :
    (is_unsafe_path ("root.hmi" <> "/") ≡ false)
    × (components ("root.hmi" <> "/") ≡ components "root.hmi")
    × ("root.hmi" <> "/" ≢ "root.hmi")
is_unsafe_path-append_slash_example =
    is_unsafe_path-append_slash "root.hmi" (unfold is_unsafe_path is_absolute components in refl)
