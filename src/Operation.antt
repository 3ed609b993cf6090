-- ===== src/Operation.antt =====
-- core/operation.h and core/operation.cpp: what a job is asked to do to a drive.
use drive_lab.Prelude.{Bool, Text, bytes}
use drive_lab.Drive.{Drive}

pub data OperationKind : Type 0 where
  health_short_test health_extended_test health_conveyance_test health_raw_data : OperationKind
  ata_security_inspect hpa_inspect dco_inspect : OperationKind
  benchmark_quick_read benchmark_hdd_characterization : OperationKind
  benchmark_random4k_qd1 benchmark_random4k_qd32 benchmark_latency : OperationKind
  sanitize_secure_erase sanitize_enhanced_secure_erase : OperationKind
  sanitize_overwrite sanitize_overwrite_ones sanitize_overwrite_random : OperationKind

pub data SafetyClass : Type 0 where
  status_only read_only firmware_self_test destructive irreversible : SafetyClass

pub record ControlCapabilities : Type 0 where
  pub can_pause : Bool
  pub can_resume : Bool
  pub can_cancel : Bool

pub record OperationRequest : Type 0 where
  pub kind : OperationKind
  pub name : Text
  pub provider : Text
  pub target : Drive
  pub safety_class : SafetyClass
  pub controls : ControlCapabilities

unfoldable pub operation_kind_name : OperationKind → Text
operation_kind_name health_short_test = bytes "S.M.A.R.T Short Test"
operation_kind_name health_extended_test = bytes "S.M.A.R.T Extended Test"
operation_kind_name health_conveyance_test = bytes "S.M.A.R.T Conveyance Test"
operation_kind_name health_raw_data = bytes "Raw S.M.A.R.T Data"
operation_kind_name ata_security_inspect = bytes "ATA Security Inspect"
operation_kind_name hpa_inspect = bytes "HPA Inspect"
operation_kind_name dco_inspect = bytes "DCO Inspect"
operation_kind_name benchmark_quick_read = bytes "Quick Read"
operation_kind_name benchmark_hdd_characterization = bytes "HDD Characterization"
operation_kind_name benchmark_random4k_qd1 = bytes "Random 4K QD1"
operation_kind_name benchmark_random4k_qd32 = bytes "Random 4K QD32"
operation_kind_name benchmark_latency = bytes "Latency / ioping"
operation_kind_name sanitize_secure_erase = bytes "Secure Erase"
operation_kind_name sanitize_enhanced_secure_erase = bytes "Enhanced Secure Erase"
operation_kind_name sanitize_overwrite = bytes "nwipe Zero Fill"
operation_kind_name sanitize_overwrite_ones = bytes "nwipe One Fill"
operation_kind_name sanitize_overwrite_random = bytes "nwipe Random Fill"

unfoldable pub safety_class_name : SafetyClass → Text
safety_class_name status_only = bytes "STATUS ONLY"
safety_class_name read_only = bytes "READ-ONLY"
safety_class_name firmware_self_test = bytes "FIRMWARE SELF-TEST"
safety_class_name destructive = bytes "DESTRUCTIVE"
safety_class_name irreversible = bytes "IRREVERSIBLE"
