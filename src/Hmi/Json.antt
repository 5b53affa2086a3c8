-- ===== src/Hmi/Json.antt =====
-- What the crate uses of `serde_json`, which is not part of the repository: values with `get` and
-- `as_str`, and the decoders that `derive(Deserialize)` generates.
use mirum.Base.{ℕ, String, Option, List, Result}
use mirum.Hmi.Types.{FileRef, MachineImage}

-- `struct Raw` of `Boot::deserialize`.
pub record RawBoot : Type 0 where
  pub disk : String
  pub kernel : Option FileRef
  pub initrd : Option FileRef
  pub cmdline : Option String

-- `struct Raw` of `Access::deserialize`.
pub record RawSsh : Type 0 where
  pub port : ℕ
  pub user : String
  pub auth : String

-- `struct Header` of `MachineImage::from_json`.
pub record Header : Type 0 where
  pub schema_version : ℕ
  pub kind : Option String

pub record Json : Type 1 where
  pub Value : Type 0
  pub get : Value → String → Option Value
  pub as_str : Value → Option String
  pub raw_boot : Value → Result String RawBoot
  pub raw_ssh : Value → Result String RawSsh
  -- `serde_json::from_slice` at `Header` and at `MachineImage`.
  pub header : List ℕ → Result String Header
  pub image : List ℕ → Result String (MachineImage Value)
