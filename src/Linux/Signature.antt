-- ===== src/Linux/Signature.antt =====
-- `parseSignature` of platform/linux/linux_host_parsers.cpp.
use drive_lab.Prelude.{
  Bool, true, false, not, ◌&&◌, ◌||◌, Option, none, some, List, [], ◌∷◌, ◌++◌, ◌==◌, Text, bytes,
  text_eq, length, is_empty, any_of, set_insert, map_set, map_get, map_find, TextMap, if◌then◌else◌,
}
use drive_lab.Inventory.{
  DiscoveryIssue, DiscoveryIssueCode, malformed_evidence, missing_evidence, unsupported_topology,
  SignatureEvidence, SignatureState, unavailable, reported, malformed, conflicting,
}
use drive_lab.Linux.{HostRead, Properties, issue}
use drive_lab.Linux.Words.{plain_text, token}

-- The values of each key.
unfoldable pub grouped : Properties → TextMap (List Text) → TextMap (List Text)
grouped [] m = m
grouped (p ∷ ps) m = grouped ps (map_set p.0 (set_insert p.1 (map_get [] p.0 m)) m)

abbrev pub is_ambivalent : Text → Bool
is_ambivalent key = text_eq key (bytes "ID_FS_AMBIVALENT")

abbrev pub is_selected : Text → Bool
is_selected key =
    text_eq key (bytes "ID_FS_TYPE")
    || (text_eq key (bytes "ID_FS_USAGE") || text_eq key (bytes "ID_FS_UUID"))

-- The three flags, for one key with its values.
unfoldable pub is_conflicting : Text × List Text → Bool
is_conflicting (key, values) = not (length values == 1) || is_ambivalent key

unfoldable pub is_malformed : Text × List Text → Bool
is_malformed (key, values) =
    any_of (λ v. not (plain_text v)) values
    || (is_selected key && any_of (λ v. not (token v)) values)

unfoldable pub is_unsupported : Text × List Text → Bool
is_unsupported (key, values) =
    not (is_ambivalent key || (is_selected key || text_eq key (bytes "ID_FS_LABEL")))

abbrev pub single : Option (List Text) → Option Text
single (some (v ∷ [])) = some v
single _ = none

-- `get`.
unfoldable pub selected : Text → TextMap (List Text) → Option Text
selected key m = single (map_find key m)

abbrev is_known_usage : Text → Bool
is_known_usage u =
    text_eq u (bytes "filesystem")
    || (text_eq u (bytes "raid") || (text_eq u (bytes "crypto") || text_eq u (bytes "other")))

abbrev is_odd_usage : Option Text → Bool
is_odd_usage none = false
is_odd_usage (some u) = not (is_known_usage u)

-- `type == "swap" && usage && usage != "other"`.
abbrev is_odd_swap : Option Text → Option Text → Bool
is_odd_swap (some t) (some u) = text_eq t (bytes "swap") && not (text_eq u (bytes "other"))
is_odd_swap (some t) none = false
is_odd_swap none u = false

abbrev pub has_both : Option Text → Option Text → Bool
has_both (some t) (some u) = true
has_both (some t) none = false
has_both none u = false

-- What `parseSignature` decides from the properties.
pub record Findings : Type 0 where
  pub conflict : Bool
  pub malformed_value : Bool
  pub unsupported : Bool
  pub type : Option Text
  pub usage : Option Text
  pub uuid : Option Text
  pub label : Option Text

unfoldable pub findings : TextMap (List Text) → Findings
unfolding is_conflicting is_malformed is_unsupported selected
findings m =
    let type = selected (bytes "ID_FS_TYPE") m in
    let usage = selected (bytes "ID_FS_USAGE") m in
    record {
      conflict = any_of is_conflicting m || is_odd_swap type usage;
      malformed_value = any_of is_malformed m;
      unsupported = any_of is_unsupported m || is_odd_usage usage;
      type = type;
      usage = usage;
      uuid = selected (bytes "ID_FS_UUID") m;
      label = selected (bytes "ID_FS_LABEL") m;
    }

-- The state, with the issue that goes with it.
unfoldable pub signature_state : Text → Bool → Findings → SignatureState × List DiscoveryIssue
signature_state node clean f =
    if f.conflict
    then (
      conflicting,
      issue DiscoveryIssueCode.conflict node (bytes "signature") (
            bytes
              "Conflicting or ambivalent udev signature properties; raw properties retained in issue")
          ∷ [],
    )
    else if f.malformed_value
    then (
      malformed,
      issue malformed_evidence node (bytes "signature")
            (bytes "Malformed udev signature properties")
          ∷ [],
    )
    else if f.unsupported
    then (
      SignatureState.unsupported,
      issue unsupported_topology node (bytes "signature")
            (bytes "Unrecognized signature property or usage; no ownership interpretation")
          ∷ [],
    )
    else if has_both f.type f.usage && clean
    then (reported, [])
    else (
      unavailable,
      issue missing_evidence node (bytes "signature")
            (bytes "Missing/incomplete/unreadable cached signature; no fresh device probe")
          ∷ [],
    )

unfoldable pub untrusted_values : Text → Text → List Text → List DiscoveryIssue
untrusted_values node key [] = []
untrusted_values node key (v ∷ vs) =
    issue DiscoveryIssueCode.conflict node (bytes "signature." ++ key)
      (bytes "Untrusted observed property: " ++ v)
    ∷ untrusted_values node key vs

unfoldable pub untrusted : Text → TextMap (List Text) → List DiscoveryIssue
unfolding untrusted_values
untrusted node [] = []
untrusted node ((key, values) ∷ m) = untrusted_values node key values ++ untrusted node m

abbrev pub evidence :
    SignatureState → Option Text → Option Text → Option Text → Option Text → SignatureEvidence
evidence state type usage uuid label = record {
  state = state;
  provenance = bytes "udev database; freshness unverified";
  type = type;
  usage = usage;
  uuid = uuid;
  label = label;
}

-- The end of `parseSignature`, for what was found. Rejected fields are not exposed.
unfoldable pub judged_by :
    Text → Bool → Findings → TextMap (List Text) → SignatureEvidence × List DiscoveryIssue
unfolding signature_state untrusted
judged_by node clean f m =
    let (state, found) = signature_state node clean f in
    if f.conflict || (f.malformed_value || (f.unsupported || not clean))
    then (evidence state none none none none, found ++ untrusted node m)
    else (evidence state f.type f.usage f.uuid f.label, found)

-- The rest of `parseSignature`, for properties that were read.
unfoldable pub judged_signature :
    Text → Bool → TextMap (List Text) → SignatureEvidence × List DiscoveryIssue
unfolding findings judged_by
judged_signature node clean m = judged_by node clean (findings m) m

abbrev no_observation : Text → DiscoveryIssue
no_observation node =
    issue missing_evidence node (bytes "signature")
      (bytes "No signature observation; absence is not proof of an unsigned device")

-- The evidence, with the issues that were there and those that are new.
unfoldable pub parse_signature :
    HostRead Properties → Text → List DiscoveryIssue → SignatureEvidence × List DiscoveryIssue
unfolding grouped judged_signature
parse_signature source node issues = elim source.value [
  | none ↦ (
    evidence unavailable none none none none,
    issues ++ (source.issues ++ (no_observation node ∷ [])),
  )
  | some properties ↦
      let (e, found) = judged_signature node (is_empty source.issues) (grouped properties []) in
      (e, issues ++ (source.issues ++ found))
]
