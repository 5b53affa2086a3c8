-- ===== src/Oci/Display.antt =====
-- `Display` of `Error`, crates/mirum-vm-oci/src/error.rs. The texts of the errors of other crates are
-- given.
use mirum.Base.{String, ◌<>◌}
use mirum.Hmi.Display
use mirum.Oci.World.{
  Error, io, json, registry, task, missing_manifest, invalid_image, invalid_reference,
  invalid_image_path, missing_config, image_not_found, invalid_layer, empty_image_file,
  invalid_annotation, invalid_storage_path,
}

pub record Texts : Type 0 where
  pub io_text : String
  pub json_text : String
  pub registry_text : String
  pub task_text : String
  pub reference_text : String → String

unfoldable pub display : Texts → Error → String
display T io = T.io_text
display T json = T.json_text
display T (invalid_image error) = Display.display error
display T (invalid_reference reference) =
    "invalid reference '" <> reference <> "': " <> T.reference_text reference
display T registry = T.registry_text
display T task = "background task failed: " <> T.task_text
display T (invalid_image_path path) = path <> " has no file name"
display T (missing_config path) = path <> " does not contain config.json"
display T (image_not_found reference) = "no local image tagged '" <> reference <> "'"
display T missing_manifest = "registry returned no image manifest"
display T (invalid_layer reason) = "invalid chunk layer: " <> reason
display T (invalid_annotation name value) =
    "invalid chunk " <> name <> " annotation '" <> value <> "'"
display T (empty_image_file path) = path <> " is empty"
display T (invalid_storage_path kind value) = "invalid " <> kind <> " '" <> value <> "'"
