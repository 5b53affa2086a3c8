-- ===== src/Vmm/Types.antt =====
-- `Error`, `Settings` and `Hypervisor` of crates/mirum-vm-vmm.
use mirum.Base.{ℕ, String, Bool, List, Option, Result}
use mirum.Hmi.Types.{Boot, MachineImage}

-- Without `NotFound`, which no code makes, and without the text of an OS error.
pub data Error : Type 0 where
  unsupported invalid_image invalid_state : String → Error
  duplicate_hypervisor : ℕ → Error
  io : Error

pub record Settings : Type 0 where
  pub cpu : ℕ
  pub ram : ℕ
  pub port_forwards : List (ℕ × ℕ)

-- What the monitor uses of a hypervisor; `m` is its machine.
pub record Hypervisor (V m : Type 0) : Type 0 where
  pub id : ℕ
  pub supports : Boot V → Bool
  pub create : Option String → MachineImage V → String → Boot V → Settings → Result Error m
