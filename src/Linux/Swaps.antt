-- ===== src/Linux/Swaps.antt =====
-- `parseSwaps` of platform/linux/linux_host_parsers.cpp.
use drive_lab.Prelude.{
  ◌^◌, Bool, false, not, ◌&&◌, Option, none, some, List, [], ◌∷◌, ◌++◌, ◌==◌, leb, ℤ, pos, negsuc,
  Text, bytes, text_eq, sort_by, texts_eq, set_has, set_insert, TieKey, if◌then◌else◌, ◌-◌,
}
use drive_lab.Inventory.{
  SwapEvidence, DiscoveryIssue, conflict, unsupported_topology, ResolvedInventorySnapshot,
}
use drive_lab.Ownership.{number_part, text_part}
use drive_lab.Linux.{issue, add_issue, malformed_record}
use drive_lab.Linux.Words.{
  words, complete_lines, is_unterminated, number, int_number, unescape, is_absolute, guard, ◌>>=◌,
  ◌>>◌,
}
use drive_lab.Linux.Mounts.{truncated}

line_of : Text → Text
line_of [] = []
line_of (c ∷ cs) = let rest = line_of cs in if c == b'\n' then [] else c ∷ rest

-- The first line, also if no newline ends it.
unfoldable pub first_line : Text → Option Text
unfolding line_of
first_line [] = none
first_line (c ∷ cs) = some (line_of (c ∷ cs))

-- The lines after the first.
abbrev drop_first : List Text → List Text
drop_first [] = []
drop_first (l ∷ ls) = ls

abbrev swaps_header : List Text
swaps_header = bytes "Filename" ∷ bytes "Type" ∷ bytes "Size" ∷ bytes "Used" ∷ bytes "Priority" ∷ []

unfoldable pub swap_of : List Text → Option SwapEvidence
swap_of (f ∷ type ∷ s ∷ u ∷ p ∷ []) = do
  path ← unescape f
  guard (is_absolute path)
  size ← number (2 ^ 64) s
  used ← number (2 ^ 64) u
  priority ← int_number p
  guard (leb used size)
  some (record {
    path = path;
    type = type;
    size_kib = size;
    used_kib = used;
    priority = priority;
    device_number = none;
    node = none;
  })
swap_of _ = none

abbrev unsupported_type : Text → DiscoveryIssue
unsupported_type line =
    issue unsupported_topology [] (bytes "swaps") (bytes "Unsupported swap type: " ++ line)

abbrev duplicate_swap : Text → DiscoveryIssue
duplicate_swap path =
    issue conflict [] (bytes "swaps")
      (bytes "Duplicate swap path retained without attribution: " ++ path)

abbrev pub add_if : Bool → DiscoveryIssue → ResolvedInventorySnapshot → ResolvedInventorySnapshot
add_if b i out = if b then add_issue i out else out

abbrev keep_swap : SwapEvidence → ResolvedInventorySnapshot → ResolvedInventorySnapshot
keep_swap s out = record out { swaps = out.swaps ++ (s ∷ []) }

-- `swap.type != "partition" && swap.type != "file"`.
abbrev is_odd : Text → Bool
is_odd type = not (text_eq type (bytes "partition")) && not (text_eq type (bytes "file"))

-- The loop over the lines; `paths` is the set of paths.
unfoldable pub read_swaps :
    List Text → List Text → ResolvedInventorySnapshot → ResolvedInventorySnapshot
unfolding swap_of
read_swaps paths [] out = out
read_swaps paths (line ∷ lines) out = elim (swap_of (words line)) [
  | none ↦ read_swaps paths lines (add_issue (malformed_record (bytes "swaps") line) out)
  | some s ↦ read_swaps (set_insert s.path paths) lines (
      keep_swap s (
        add_if (set_has s.path paths) (duplicate_swap s.path)
          (add_if (is_odd s.type) (unsupported_type line) out)))
]

abbrev int_part : ℤ → List Text
int_part (pos n) = (1 ∷ n ∷ []) ∷ []
int_part (negsuc n) = (0 ∷ (2 ^ 31 - n) ∷ []) ∷ []

abbrev swap_key : SwapEvidence → TieKey
swap_key s =
    text_part s.path
    ∷ text_part s.type
    ∷ number_part s.size_kib
    ∷ number_part s.used_kib
    ∷ int_part s.priority
    ∷ []

abbrev invalid_header : DiscoveryIssue
invalid_header = malformed_record (bytes "swaps") (bytes "Missing or invalid /proc/swaps header")

abbrev has_header : Option Text → Bool
has_header none = false
has_header (some line) = texts_eq (words line) swaps_header

unfoldable pub parse_swaps : Text → ResolvedInventorySnapshot → ResolvedInventorySnapshot
unfolding first_line read_swaps
parse_swaps text out =
    if has_header (first_line text)
    then (let read = read_swaps [] (drop_first (complete_lines text)) out in
        let ended = add_if (is_unterminated text) (truncated (bytes "swaps")) read in
        record ended { swaps = sort_by swap_key ended.swaps })
    else add_issue invalid_header out
