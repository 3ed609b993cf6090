-- ===== src/Linux/Mounts.antt =====
-- `parseMountInfo` of platform/linux/linux_host_parsers.cpp.
use drive_lab.Prelude.{
  ℕ, ◌^◌, not, ◌&&◌, Option, none, some, List, [], ◌∷◌, ◌++◌, ◌==◌, Text, bytes, text_eq, to_text,
  is_empty, any_of, sort_by, TieKey, if◌then◌else◌,
}
use drive_lab.Inventory.{
  MountEvidence, DiscoveryIssue, conflict, malformed_evidence, ResolvedInventorySnapshot,
}
use drive_lab.Ownership.{number_part, text_part}
use drive_lab.Linux.{issue, add_issue, malformed_record}
use drive_lab.Linux.Words.{
  words, complete_lines, is_unterminated, number, device_number, unescape, token, is_absolute,
  guard, ◌>>=◌, ◌>>◌,
}

-- The fields before the first "-", and those after it.
unfoldable pub split_dash : List Text → Option (List Text × List Text)
split_dash [] = none
split_dash (f ∷ fs) =
    let rest = split_dash fs in
    if text_eq f (bytes "-")
    then some ([], fs)
    else elim rest [ none ↦ none | some (a, b) ↦ some (f ∷ a, b) ]

-- The record of one line: at least six fields before the "-", and three after it.
unfoldable pub mount_of : List Text → List Text → Option MountEvidence
mount_of (i ∷ p ∷ d ∷ r ∷ m ∷ options ∷ optional) (type ∷ s ∷ super ∷ []) = do
  id ← number (2 ^ 64) i
  guard (not (id == 0))
  parent ← number (2 ^ 64) p
  device ← device_number d
  root ← unescape r
  point ← unescape m
  source ← unescape s
  guard (is_absolute root && is_absolute point && token type)
  some (record {
    mount_id = id;
    parent_id = parent;
    device_number = device;
    root = root;
    mount_point = point;
    options = options;
    optional_fields = optional;
    filesystem_type = type;
    source = source;
    super_options = super;
    node = none;
    subtree = not (text_eq root (bytes "/"));
  })
mount_of _ _ = none

unfoldable pub read_mount : Text → Option MountEvidence
unfolding split_dash mount_of
read_mount line = do (before, after) ← split_dash (words line); mount_of before after

abbrev duplicate_mount : ℕ → DiscoveryIssue
duplicate_mount id =
    issue conflict [] (bytes "mountinfo") (
      bytes "Duplicate mount ID " ++ (to_text id ++ bytes "; records retained without attribution"))

abbrev keep_mount : MountEvidence → ResolvedInventorySnapshot → ResolvedInventorySnapshot
keep_mount m out = record out { mounts = out.mounts ++ (m ∷ []) }

-- The loop over the lines; `seen` is the set of ids.
unfoldable pub read_mounts :
    List ℕ → List Text → ResolvedInventorySnapshot → ResolvedInventorySnapshot
unfolding read_mount
read_mounts seen [] out = out
read_mounts seen (line ∷ lines) out = elim (read_mount line) [
  | none ↦ read_mounts seen lines (add_issue (malformed_record (bytes "mountinfo") line) out)
  | some m ↦
      let again = any_of (λ i. i == m.mount_id) seen in
      read_mounts (m.mount_id ∷ seen) lines
        (keep_mount m (if again then add_issue (duplicate_mount m.mount_id) out else out))
]

abbrev mount_key : MountEvidence → TieKey
mount_key m =
    number_part m.mount_id
    ∷ number_part m.parent_id
    ∷ number_part m.device_number.major_number
    ∷ number_part m.device_number.minor_number
    ∷ text_part m.root
    ∷ text_part m.mount_point
    ∷ text_part m.options
    ∷ m.optional_fields
    ∷ text_part m.filesystem_type
    ∷ text_part m.source
    ∷ text_part m.super_options
    ∷ []

abbrev pub truncated : Text → DiscoveryIssue
truncated field =
    issue malformed_evidence [] field
      (bytes "Input lacks a terminating newline; possible truncated read")

unfoldable pub parse_mount_info : Text → ResolvedInventorySnapshot → ResolvedInventorySnapshot
unfolding read_mounts
parse_mount_info text out =
    let started =
      if is_empty text
      then add_issue
          (malformed_record (bytes "mountinfo") (bytes "Empty mount namespace record set")) out
      else out in
    let read = read_mounts [] (complete_lines text) started in
    let ended =
      if is_unterminated text then add_issue (truncated (bytes "mountinfo")) read else read in
    record ended { mounts = sort_by mount_key ended.mounts }
