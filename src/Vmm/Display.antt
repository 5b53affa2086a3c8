-- ===== src/Vmm/Display.antt =====
-- `Display` of `Error`, crates/mirum-vm-vmm/src/lib.rs. The text of an error of the system is given.
use mirum.Base.{String, ◌<>◌}
use mirum.Base.Decimal.{decimal}
use mirum.Vmm.Types.{Error, unsupported, invalid_image, invalid_state, duplicate_hypervisor, io}

unfoldable pub display : String → Error → String
display io_text (unsupported message) = "unsupported: " <> message
display io_text (invalid_image message) = "invalid image: " <> message
display io_text (invalid_state message) = "invalid state: " <> message
display io_text (duplicate_hypervisor id) =
    "duplicate hypervisor id " <> decimal id <> " registered with this monitor"
display io_text io = io_text
