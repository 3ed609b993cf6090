-- ===== src/Tests/HostFiles.antt =====
-- The parsers of the host's files on short texts.
use drive_lab.Prelude.{
  ℕ, ◌≡◌, refl, true, false, none, some, List, [], ◌∷◌, ◌++◌, Text, bytes, map, ◌↔◌,
}
use drive_lab.Inventory.{ResolvedInventorySnapshot, reported, conflicting}
use drive_lab.Linux.{HostRead, Properties}
use drive_lab.Linux.Words.{words, unescape}
use drive_lab.Linux.Mounts.{parse_mount_info}
use drive_lab.Linux.Swaps.{parse_swaps}
use drive_lab.Linux.Signature.{parse_signature}
use drive_lab.Linux.Faithful.{Faithful, parse_signature-Faithful}
use drive_lab.Linux.Escapes.{Stands, unescape_iff}

abbrev nothing_read : ResolvedInventorySnapshot
nothing_read = record {
  nodes = [];
  mounts = [];
  swaps = [];
  issues = [];
  inventory_issues = [];
  mountinfo_read_complete = false;
  swaps_read_complete = false;
}

two_mounts :
    map
      (λ m. m.mount_point)
      (parse_mount_info
        (bytes
          "29 1 8:2 / / rw shared:1 - ext4 /dev/sda2 rw\n22 29 8:3 / /mnt/a\\040b rw - xfs /dev/sda3 rw\n")
        nothing_read).mounts
    ≡ bytes "/mnt/a b" ∷ bytes "/" ∷ []
unfolding parse_mount_info drive_lab.Prelude.sort_by drive_lab.Linux.Words.is_unterminated bytes
    drive_lab.Linux.Words.complete_lines words drive_lab.Prelude.is_space drive_lab.Prelude.text_eq
    drive_lab.Linux.Words.number drive_lab.Linux.Words.device_number unescape
    drive_lab.Linux.Words.token drive_lab.Prelude.any_of drive_lab.Prelude.tie_less
    drive_lab.Prelude.texts_less drive_lab.Prelude.texts_eq drive_lab.Prelude.text_less
two_mounts = refl

no_separator :
    map
      (λ i. i.field)
      (parse_mount_info (bytes "29 1 8:2 / / rw ext4 /dev/sda2 rw\n") nothing_read).issues
    ≡ bytes "mountinfo" ∷ []
unfolding parse_mount_info drive_lab.Prelude.sort_by drive_lab.Linux.Words.is_unterminated bytes
    drive_lab.Linux.Words.complete_lines words drive_lab.Prelude.is_space drive_lab.Prelude.text_eq
    drive_lab.Linux.Words.number drive_lab.Linux.Words.device_number unescape
    drive_lab.Linux.Words.token drive_lab.Prelude.any_of drive_lab.Prelude.tie_less
    drive_lab.Prelude.texts_less drive_lab.Prelude.texts_eq drive_lab.Prelude.text_less
no_separator = refl

cut_off : (parse_mount_info (bytes "29 1 8:2 / / rw - ext4 /dev/sda2 rw") nothing_read).mounts ≡ []
unfolding parse_mount_info drive_lab.Prelude.sort_by drive_lab.Linux.Words.is_unterminated bytes
    drive_lab.Linux.Words.complete_lines words drive_lab.Prelude.is_space drive_lab.Prelude.text_eq
    drive_lab.Linux.Words.number drive_lab.Linux.Words.device_number unescape
    drive_lab.Linux.Words.token drive_lab.Prelude.any_of drive_lab.Prelude.tie_less
    drive_lab.Prelude.texts_less drive_lab.Prelude.texts_eq drive_lab.Prelude.text_less
cut_off = refl

one_swap :
    map
      (λ s. s.size_kib)
      (parse_swaps
        (bytes
          "Filename Type Size Used Priority\n/dev/sda3 partition 100 20 -2\n/dev/sdb3 partition 100 200 -2\n")
        nothing_read).swaps
    ≡ 100 ∷ []
unfolding parse_swaps bytes drive_lab.Prelude.texts_eq words drive_lab.Prelude.is_space
    drive_lab.Prelude.text_eq drive_lab.Prelude.sort_by drive_lab.Linux.Words.is_unterminated
    drive_lab.Linux.Words.complete_lines unescape drive_lab.Linux.Words.number
    drive_lab.Linux.Words.int_number drive_lab.Prelude.set_has drive_lab.Prelude.set_insert
    drive_lab.Prelude.text_less
one_swap = refl

abbrev udev : Properties → HostRead Properties
udev ps = record { value = some ps; issues = [] }

signature_reported :
    (parse_signature
      (udev ((bytes "ID_FS_TYPE", bytes "ext4") ∷ (bytes "ID_FS_USAGE", bytes "filesystem") ∷ []))
      (bytes "sda1")
      []).0.state
    ≡ reported
unfolding parse_signature drive_lab.Prelude.any_of drive_lab.Prelude.map_set
    drive_lab.Prelude.text_eq bytes drive_lab.Prelude.text_less drive_lab.Prelude.set_insert
    drive_lab.Prelude.map_get drive_lab.Prelude.map_find drive_lab.Linux.Words.plain_text
    drive_lab.Linux.Words.token
signature_reported = refl

signature_conflicting :
    (parse_signature
      (udev ((bytes "ID_FS_TYPE", bytes "ext4") ∷ (bytes "ID_FS_TYPE", bytes "xfs") ∷ []))
      (bytes "sda1")
      []).0.state
    ≡ conflicting
unfolding parse_signature drive_lab.Prelude.any_of drive_lab.Prelude.map_set
    drive_lab.Prelude.text_eq bytes drive_lab.Prelude.text_less drive_lab.Prelude.set_insert
    drive_lab.Prelude.map_get drive_lab.Prelude.map_find drive_lab.Linux.Words.plain_text
    drive_lab.Linux.Words.token
signature_conflicting = refl

unescape_iff_example :
    (unescape (bytes "/mnt/a\\040b\\134c") ≡ some (bytes "/mnt/a b\\c"))
    ↔ Stands (bytes "/mnt/a\\040b\\134c") (bytes "/mnt/a b\\c")
unescape_iff_example = unescape_iff (bytes "/mnt/a\\040b\\134c") (bytes "/mnt/a b\\c")

abbrev ext4 : Properties
ext4 =
    (bytes "ID_FS_TYPE", bytes "ext4")
    ∷ (bytes "ID_FS_USAGE", bytes "filesystem")
    ∷ (bytes "ID_FS_LABEL", bytes "my root")
    ∷ []

parse_signature-Faithful_example :
    Faithful (udev ext4) (parse_signature (udev ext4) (bytes "sda1") []).0
parse_signature-Faithful_example = parse_signature-Faithful (udev ext4) (bytes "sda1") [] (
    unfold parse_signature drive_lab.Prelude.any_of drive_lab.Prelude.map_set
      drive_lab.Prelude.text_eq bytes drive_lab.Prelude.text_less drive_lab.Prelude.set_insert
      drive_lab.Prelude.map_get drive_lab.Prelude.map_find drive_lab.Linux.Words.plain_text
      drive_lab.Linux.Words.token in
    refl)
