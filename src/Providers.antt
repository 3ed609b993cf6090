-- ===== src/Providers.antt =====
-- providers/provider_interfaces.h: what the application asks its providers for, and what they
-- answer.
pub mod Mock
pub mod Fixtures
use drive_lab.Prelude.{List}
use drive_lab.Result.{Result}
use drive_lab.Drive.{Drive}
use drive_lab.Operation.{OperationRequest}

pub data HealthTestType : Type 0 where
  short extended conveyance raw_data : HealthTestType

pub data AtaInspectionType : Type 0 where
  security hpa dco : AtaInspectionType

pub data BenchmarkProfile : Type 0 where
  quick_read hdd_characterization random4k_qd1 random4k_qd32 latency : BenchmarkProfile

pub data SanitizeMethod : Type 0 where
  secure_erase enhanced_secure_erase overwrite overwrite_ones overwrite_random : SanitizeMethod

-- The `plan` methods of `HealthProvider`, `AtaProvider`, `BenchmarkProvider` and
-- `SanitizeProvider`, which are const.
pub record Planners : Type 0 where
  pub health : Drive → HealthTestType → Result OperationRequest
  pub ata : Drive → AtaInspectionType → Result OperationRequest
  pub benchmark : Drive → BenchmarkProfile → Result OperationRequest
  pub sanitize : Drive → SanitizeMethod → Result OperationRequest
