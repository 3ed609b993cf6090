-- ===== src/Logging.antt =====
-- logging/logger.h and logging/logger.cpp: log records, and the loggers that keep or print them.
use drive_lab.Prelude.{ℕ, Option, none, some, List, [], ◌∷◌, ◌++◌, Text, bytes, to_text}

pub data LogSeverity : Type 0 where
  debug info warning error : LogSeverity

-- A time point is a number of clock ticks.
pub record LogRecord : Type 0 where
  pub timestamp : ℕ
  pub severity : LogSeverity
  pub component : Text
  pub job_id : Option ℕ
  pub message : Text

-- `VectorLogger::log`.
unfoldable pub vector_log : LogRecord → List LogRecord → List LogRecord
vector_log r records = records ++ (r ∷ [])

unfoldable pub log_severity_name : LogSeverity → Text
log_severity_name debug = bytes "DEBUG"
log_severity_name info = bytes "INFO"
log_severity_name warning = bytes "WARN"
log_severity_name error = bytes "ERROR"

-- `std::setw(5)` with `std::left`; the names have four or five letters.
abbrev padded : Text → Text
padded (a ∷ b ∷ c ∷ d ∷ []) = a ∷ b ∷ c ∷ d ∷ b' ' ∷ []
padded t = t

abbrev job_label : Option ℕ → Text
job_label none = []
job_label (some id) = bytes " Job#" ++ to_text id

-- What `OstreamLogger::log` writes, for the local time that the C library gives.
unfoldable pub ostream_line : (ℕ → Text) → LogRecord → Text
ostream_line local_time r =
    local_time r.timestamp
    ++ (b' '
        ∷ (padded (log_severity_name r.severity)
            ++ (b' '
                ∷ (r.component
                    ++ (job_label r.job_id ++ (bytes "  " ++ (r.message ++ (b'\n' ∷ []))))))))
