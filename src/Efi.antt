-- ===== src/Efi.antt =====
-- The EFI_STATUS values that the code returns or tests for. `error_code` and `warning` stand for the
-- others, which only pass through it.
pub mod Polling
use ddtsoft_net_test.Base.{ℕ, Bool, true, false}

pub data EfiStatus : Type 0 where
  success : EfiStatus
  invalid_parameter unsupported buffer_too_small not_ready device_error : EfiStatus
  not_found no_mapping timeout : EfiStatus
  error_code warning : ℕ → EfiStatus

-- EFI_ERROR
abbrev pub efi_error : EfiStatus → Bool
efi_error EfiStatus.success = false
efi_error (EfiStatus.warning n) = false
efi_error _ = true
