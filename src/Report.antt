-- ===== src/Report.antt =====
-- report/report_writer.h and report/report_writer.cpp.
use drive_lab.Prelude.{ℕ, List, [], ◌∷◌, ◌++◌, Text, bytes, to_text, length}
use drive_lab.Result.{Result, ok, err, execution_disabled}
use drive_lab.Drive.{DriveIdentity}

pub record Report : Type 0 where
  pub schema_version : ℕ
  pub drive_identity : DriveIdentity
  pub title : Text
  pub body : Text

-- `DisabledReportWriter::write`, for the writer's reason.
unfoldable pub write_disabled : Text → Report → Result Text
write_disabled reason report = err (record {
  code = execution_disabled;
  component = bytes "DisabledReportWriter";
  message = reason;
})

-- `MemoryReportWriter::write`, on the reports so far; the path joins two names.
unfoldable pub write_memory : Report → List Report → List Report × Result Text
write_memory report reports =
    let all = reports ++ (report ∷ []) in
    (all, ok (bytes "memory://report/" ++ to_text (length all)))
