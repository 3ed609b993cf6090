-- ===== src/Providers/Mock.antt =====
-- The planners of providers/mock_providers.cpp.
use drive_lab.Prelude.{Bool, true, false, Text, bytes}
use drive_lab.Result.{Result, ok}
use drive_lab.Drive.{Drive}
use drive_lab.Operation.{
  OperationKind, health_short_test, health_extended_test, health_conveyance_test, health_raw_data,
  ata_security_inspect, hpa_inspect, dco_inspect, benchmark_quick_read,
  benchmark_hdd_characterization, benchmark_random4k_qd1, benchmark_random4k_qd32,
  benchmark_latency, sanitize_secure_erase, sanitize_enhanced_secure_erase, sanitize_overwrite,
  sanitize_overwrite_ones, sanitize_overwrite_random, SafetyClass, status_only, read_only,
  firmware_self_test, destructive, irreversible, ControlCapabilities, OperationRequest,
  operation_kind_name,
}
use drive_lab.Providers.{
  HealthTestType, short, extended, conveyance, raw_data, AtaInspectionType, security, hpa, dco,
  BenchmarkProfile, quick_read, hdd_characterization, random4k_qd1, random4k_qd32, latency,
  SanitizeMethod, secure_erase, enhanced_secure_erase, overwrite, overwrite_ones, overwrite_random,
  Planners,
}
use drive_lab.Capability.{
  CapabilityId, CapabilityStatus, available, inventory, health, ata_inspection, benchmark, sanitize,
}

-- A request as each `plan` leaves it, with the operation's own name.
abbrev request :
    Text → Drive → OperationKind → SafetyClass → ControlCapabilities → Result OperationRequest
request provider drive kind safety_class controls = ok (record {
  kind = kind;
  name = operation_kind_name kind;
  provider = provider;
  target = drive;
  safety_class = safety_class;
  controls = controls;
})

abbrev cancel_only : ControlCapabilities
cancel_only = record { can_pause = false; can_resume = false; can_cancel = true }

abbrev no_controls : ControlCapabilities
no_controls = record { can_pause = false; can_resume = false; can_cancel = false }

abbrev all_controls : ControlCapabilities
all_controls = record { can_pause = true; can_resume = true; can_cancel = true }

-- `MockHealthProvider::plan`.
unfoldable pub plan_health : Drive → HealthTestType → Result OperationRequest
plan_health drive short =
    request (bytes "mock-health") drive health_short_test firmware_self_test cancel_only
plan_health drive extended =
    request (bytes "mock-health") drive health_extended_test firmware_self_test cancel_only
plan_health drive conveyance =
    request (bytes "mock-health") drive health_conveyance_test firmware_self_test cancel_only
plan_health drive raw_data =
    request (bytes "mock-health") drive health_raw_data status_only no_controls

abbrev ata_kind : AtaInspectionType → OperationKind
ata_kind security = ata_security_inspect
ata_kind hpa = hpa_inspect
ata_kind dco = dco_inspect

-- `MockAtaProvider::plan`.
unfoldable pub plan_ata : Drive → AtaInspectionType → Result OperationRequest
plan_ata drive inspection =
    request (bytes "mock-ata") drive (ata_kind inspection) read_only no_controls

abbrev benchmark_kind : BenchmarkProfile → OperationKind
benchmark_kind quick_read = benchmark_quick_read
benchmark_kind hdd_characterization = benchmark_hdd_characterization
benchmark_kind random4k_qd1 = benchmark_random4k_qd1
benchmark_kind random4k_qd32 = benchmark_random4k_qd32
benchmark_kind latency = benchmark_latency

-- `MockBenchmarkProvider::plan`.
unfoldable pub plan_benchmark : Drive → BenchmarkProfile → Result OperationRequest
plan_benchmark drive profile =
    request (bytes "mock-benchmark") drive (benchmark_kind profile) read_only all_controls

abbrev sanitize_kind : SanitizeMethod → OperationKind
sanitize_kind secure_erase = sanitize_secure_erase
sanitize_kind enhanced_secure_erase = sanitize_enhanced_secure_erase
sanitize_kind overwrite = sanitize_overwrite
sanitize_kind overwrite_ones = sanitize_overwrite_ones
sanitize_kind overwrite_random = sanitize_overwrite_random

-- Whether the drive's firmware erases: such an operation is irreversible and has no controls.
abbrev by_firmware : SanitizeMethod → Bool
by_firmware secure_erase = true
by_firmware enhanced_secure_erase = true
by_firmware _ = false

abbrev sanitize_class : Bool → SafetyClass
sanitize_class true = irreversible
sanitize_class false = destructive

abbrev sanitize_controls : Bool → ControlCapabilities
sanitize_controls true = no_controls
sanitize_controls false = all_controls

-- `MockSanitizeProvider::plan`.
unfoldable pub plan_sanitize : Drive → SanitizeMethod → Result OperationRequest
plan_sanitize drive method =
    request (bytes "mock-sanitize") drive (sanitize_kind method)
      (sanitize_class (by_firmware method)) (sanitize_controls (by_firmware method))

abbrev pub mock_planners : Planners
mock_planners = record {
  health = plan_health;
  ata = plan_ata;
  benchmark = plan_benchmark;
  sanitize = plan_sanitize;
}

abbrev available_mock : CapabilityId → Text → CapabilityStatus
available_mock id detail = record {
  id = id;
  availability = available;
  provider = bytes "mock";
  detail = detail;
}

-- The `capability` methods.
unfoldable pub inventory_capability : CapabilityStatus
inventory_capability = available_mock inventory (bytes "Canned inventory; no device access")

unfoldable pub health_capability : CapabilityStatus
health_capability = available_mock health (bytes "Simulated S.M.A.R.T data and self-tests")

unfoldable pub ata_capability : CapabilityStatus
ata_capability = available_mock ata_inspection (bytes "Simulated ATA/HPA/DCO inspection")

unfoldable pub benchmark_capability : CapabilityStatus
benchmark_capability = available_mock benchmark (bytes "Simulated read-only benchmark profiles")

unfoldable pub sanitize_capability : CapabilityStatus
sanitize_capability = available_mock sanitize (bytes "Simulated destructive workflows only")
