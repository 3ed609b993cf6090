-- ===== src/Tests/Identities.antt =====
-- Drive identities and the safety policy on two sightings of one drive.
use drive_lab.Drive.{serial_key, differs_when_known, id_eq}
use drive_lab.Prelude.{false, to_text, digits_upto, text_eq}
use drive_lab.Prelude.{◌≡◌, ◌≢◌, ◌↔◌, refl, [], bytes, is_space, to_lower}
use drive_lab.Result.{ok}
use drive_lab.Drive.{
  DriveIdentity, Drive, DriveStatus, hdd, canonical, drive_id, same_physical_device,
}
use drive_lab.Mode.{real}
use drive_lab.Operation.{destructive}
use drive_lab.Safety.{authorize}
use drive_lab.Safety.Policy.{Permits, grant, authorize_iff}

abbrev seen_first : DriveIdentity
seen_first = record {
  serial = bytes "ZA1";
  wwn = bytes " 0x5000C500 ";
  model = bytes "ST4000";
  topology = [];
  capacity_bytes = 4000;
}

abbrev seen_later : DriveIdentity
seen_later = record seen_first { wwn = bytes "0x5000c500"; capacity_bytes = 0 }

abbrev cellar_drive : Drive
cellar_drive = record {
  identity = seen_first;
  current_path = bytes "/dev/sdb";
  media = hdd;
  status = DriveStatus.ready;
  protection_reasons = [];
}

wwn_known : canonical seen_first.wwn ≢ []
unfolding canonical bytes is_space to_lower
wwn_known e = cc

authorize_iff_example :
    (authorize cellar_drive destructive real ≡ ok (grant real))
    ↔ (Permits cellar_drive destructive real × (grant real ≡ grant real))
authorize_iff_example = authorize_iff cellar_drive destructive real (grant real)

canonical_test : canonical (bytes "  Ab c\t") ≡ bytes "ab c"
unfolding canonical bytes is_space to_lower
canonical_test = refl

abbrev unnamed : DriveIdentity
unnamed = record {
  serial = bytes "a|model:b";
  wwn = [];
  model = bytes "c";
  topology = [];
  capacity_bytes = 5;
}

-- Two identities that `driveId` does not tell apart, and `samePhysicalDevice` does.
shared_key_test :
    drive_id unnamed ≡ drive_id (record unnamed { serial = bytes "a"; model = bytes "b|model:c" })
unfolding drive_id canonical serial_key bytes is_space to_lower to_text digits_upto
shared_key_test = refl

distinct_test :
    same_physical_device unnamed (record unnamed { serial = bytes "a"; model = bytes "b|model:c" })
    ≡ false
unfolding same_physical_device differs_when_known id_eq text_eq drive_id canonical serial_key bytes
    is_space to_lower to_text digits_upto
distinct_test = refl
