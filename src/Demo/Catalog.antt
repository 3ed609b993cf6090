-- ===== src/Demo/Catalog.antt =====
-- The catalogue of core/demo_model.cpp.
use drive_lab.Prelude.{
  ℕ, Bool, true, false, Option, none, some, List, [], ◌∷◌, Text, bytes, find_if,
}
use drive_lab.Operation.{
  OperationKind, ata_security_inspect, benchmark_hdd_characterization, benchmark_latency,
  benchmark_quick_read, benchmark_random4k_qd1, benchmark_random4k_qd32, dco_inspect,
  health_conveyance_test, health_extended_test, health_raw_data, health_short_test, hpa_inspect,
  sanitize_enhanced_secure_erase, sanitize_overwrite, sanitize_overwrite_ones,
  sanitize_overwrite_random, sanitize_secure_erase, SafetyClass, destructive, firmware_self_test,
  irreversible, read_only, status_only,
}
use drive_lab.Demo.{
  DemoFeature, smart, ata_hpa, benchmark, sanitize, DemoWorkflowId, smart_short_test,
  smart_extended_test, smart_conveyance_test, smart_raw_data, ata_security_state, ata_hpa_inspect,
  ata_dco_inspect, ata_secure_erase, ata_enhanced_secure_erase, benchmark_quick_sequential,
  benchmark_hdd_zone_characterization, benchmark_random4k_qd1, benchmark_random4k_qd32,
  benchmark_latency, sanitize_ata_enhanced_secure_erase, sanitize_ata_secure_erase,
  sanitize_nwipe_zero_fill, sanitize_nwipe_one_fill, sanitize_nwipe_random_fill,
  DemoWorkflowBehavior, inspection, simulated_job, DemoContextualHelp, DemoWorkflowDefinition,
  same_workflow,
}

abbrev help : Text → Text → Text → Text → DemoContextualHelp
help what future_provider typical_use risk_or_limit = record {
  what = what;
  future_provider = future_provider;
  typical_use = typical_use;
  risk_or_limit = risk_or_limit;
}

abbrev entry :
    DemoWorkflowId
    → DemoFeature
    → Text
    → OperationKind
    → SafetyClass
    → DemoWorkflowBehavior
    → DemoContextualHelp
    → Option ℕ
    → Bool
    → DemoWorkflowDefinition
entry id feature label kind class behavior help minutes recommended = record {
  id = id;
  feature = feature;
  label = label;
  operation_kind = kind;
  safety_class = class;
  behavior = behavior;
  help = help;
  estimated_duration = minutes;
  recommended = recommended;
  supported = true;
}

-- `demoWorkflowCatalog`.
unfoldable pub demo_workflow_catalog : List DemoWorkflowDefinition
demo_workflow_catalog =
    entry smart_short_test smart (bytes "Short Test") health_short_test firmware_self_test
      simulated_job
      (help (bytes "Firmware electrical/mechanical self-check without scanning all media.")
        (bytes "smartctl self-test adapter") (bytes "Fast first-pass health triage.")
        (bytes "May briefly affect latency; support varies by device."))
      none false
    ∷ entry smart_extended_test smart (bytes "Extended Test") health_extended_test
        firmware_self_test simulated_job
        (help (bytes "Drive firmware self-test across the media; it may take hours.")
          (bytes "smartctl self-test adapter") (bytes "Deep health validation after quick checks.")
          (bytes "Creates sustained device workload and can be aborted only if supported."))
        none false
    ∷ entry smart_conveyance_test smart (bytes "Conveyance Test") health_conveyance_test
        firmware_self_test simulated_job
        (help (bytes "Short firmware test intended to detect shipping damage.")
          (bytes "smartctl self-test adapter") (bytes "Recently transported ATA drives.")
          (bytes "Often unsupported on SSD, SAS and NVMe devices."))
        none false
    ∷ entry smart_raw_data smart (bytes "Raw S.M.A.R.T Data") health_raw_data status_only inspection
        (help (bytes "Displays unprocessed attributes, logs and device counters.")
          (bytes "smartctl health adapter") (bytes "Vendor-specific diagnosis and support cases.")
          (bytes "Attribute meanings and thresholds vary by model and firmware."))
        none false
    ∷ entry ata_security_state ata_hpa (bytes "Security State") ata_security_inspect read_only
        inspection
        (help (bytes "Inspects ATA security enabled, locked and frozen flags.")
          (bytes "hdparm security adapter")
          (bytes "Determine whether firmware erase can be authorized.")
          (bytes "USB bridges may hide or misreport ATA security state."))
        none false
    ∷ entry ata_hpa_inspect ata_hpa (bytes "HPA Inspect") hpa_inspect read_only inspection
        (help (bytes "Compares current visible capacity with the native maximum.")
          (bytes "hdparm HPA adapter") (bytes "Detect host-protected hidden sectors.")
          (bytes "Capacity changes are intentionally unavailable in this baseline."))
        none false
    ∷ entry ata_dco_inspect ata_hpa (bytes "DCO Inspect") dco_inspect read_only inspection
        (help (bytes "Reads Device Configuration Overlay limits and capabilities.")
          (bytes "hdparm DCO identify adapter") (bytes "Explain capacity or feature restrictions.")
          (bytes "DCO modification is out of scope; identify only."))
        none false
    ∷ entry ata_secure_erase ata_hpa (bytes "Secure Erase") sanitize_secure_erase irreversible
        simulated_job
        (help (bytes "Requests the drive firmware's standard security erase.")
          (bytes "hdparm erase adapter") (bytes "Firmware-native sanitization of ATA media.")
          (bytes "Non-cancellable after acceptance; power loss may leave security enabled."))
        (some 102) false
    ∷ entry ata_enhanced_secure_erase ata_hpa (bytes "Enhanced Secure Erase")
        sanitize_enhanced_secure_erase irreversible simulated_job
        (help (bytes "Requests the firmware's enhanced erase procedure.")
          (bytes "hdparm enhanced-erase adapter")
          (bytes "Preferred when supported and duration is acceptable.")
          (bytes "Support and completion reporting are firmware-dependent."))
        (some 78) false
    ∷ entry benchmark_quick_sequential benchmark (bytes "Quick Sequential") benchmark_quick_read
        read_only simulated_job
        (help (bytes "Samples sequential read throughput over a small safe range.")
          (bytes "fio benchmark adapter") (bytes "Fast throughput sanity check.")
          (bytes "A short sample does not describe whole-drive performance."))
        none false
    ∷ entry benchmark_hdd_zone_characterization benchmark (bytes "HDD Zone Characterization")
        benchmark_hdd_characterization read_only simulated_job
        (help (bytes "Reads outer, middle and inner zones separately.")
          (bytes "fio benchmark adapter")
          (bytes "Reveal rotational-media zone performance falloff.")
          (bytes "Longer runtime and sustained workload; HDD-oriented."))
        none false
    ∷ entry benchmark_random4k_qd1 benchmark (bytes "Random 4K QD1") benchmark_random4k_qd1
        read_only simulated_job
        (help (bytes "Measures single-queue small-block random reads.")
          (bytes "fio benchmark adapter") (bytes "Estimate desktop-like responsiveness.")
          (bytes "Results are sensitive to cache and competing host I/O."))
        none false
    ∷ entry benchmark_random4k_qd32 benchmark (bytes "Random 4K QD32") benchmark_random4k_qd32
        read_only simulated_job
        (help (bytes "Measures deep-queue small-block random reads.")
          (bytes "fio benchmark adapter") (bytes "Evaluate maximum queued random-read capability.")
          (bytes "Not representative of most interactive workloads."))
        none false
    ∷ entry benchmark_latency benchmark (bytes "Latency / ioping") benchmark_latency read_only
        simulated_job
        (help (bytes "Samples request latency and distribution over time.")
          (bytes "ioping latency adapter") (bytes "Find stalls, jitter and tail-latency problems.")
          (bytes "Host contention can dominate device latency."))
        none false
    ∷ entry sanitize_ata_enhanced_secure_erase sanitize (bytes "ATA Enhanced Secure Erase")
        sanitize_enhanced_secure_erase irreversible simulated_job
        (help (bytes "Firmware performs its enhanced media sanitization routine.")
          (bytes "hdparm enhanced-erase adapter") (bytes "Preferred ATA method when supported.")
          (bytes "Non-cancellable after acceptance; estimated 1h18m on this demo drive."))
        (some 78) true
    ∷ entry sanitize_ata_secure_erase sanitize (bytes "ATA Secure Erase") sanitize_secure_erase
        irreversible simulated_job
        (help (bytes "Firmware performs the standard ATA security erase.")
          (bytes "hdparm erase adapter") (bytes "Native erase when enhanced mode is unavailable.")
          (bytes "Non-cancellable after acceptance; estimated 1h42m."))
        (some 102) false
    ∷ entry sanitize_nwipe_zero_fill sanitize (bytes "nwipe Zero Fill") sanitize_overwrite
        destructive simulated_job
        (help (bytes "Writes zero bytes across every addressable sector.")
          (bytes "nwipe sanitize adapter")
          (bytes "Simple overwrite with easy post-write verification.")
          (bytes "Slow on large disks and may not cover remapped sectors."))
        none false
    ∷ entry sanitize_nwipe_one_fill sanitize (bytes "nwipe One Fill") sanitize_overwrite_ones
        destructive simulated_job
        (help (bytes "Writes 0xFF bytes across every addressable sector.")
          (bytes "nwipe sanitize adapter") (bytes "Alternative deterministic overwrite pattern.")
          (bytes "No security advantage over zero fill for modern drives."))
        none false
    ∷ entry sanitize_nwipe_random_fill sanitize (bytes "nwipe Random Fill")
        sanitize_overwrite_random destructive simulated_job
        (help (bytes "Writes pseudorandom data across every addressable sector.")
          (bytes "nwipe sanitize adapter")
          (bytes "Policy-driven overwrite where random patterns are required.")
          (bytes "Slower to generate/verify and may not cover remapped sectors."))
        none false
    ∷ []

-- `findDemoWorkflow`.
unfoldable pub find_demo_workflow : DemoWorkflowId → Option DemoWorkflowDefinition
find_demo_workflow id = find_if (λ w. same_workflow w.id id) demo_workflow_catalog
