-- ===== src/ClusterId/Tests.antt =====
-- Runs of internal/clusterid/id.go.
use cosmosigner.Prelude.{◌≡◌, refl, ◌↔◌, codes, ok, err}
use cosmosigner.ClusterId.{
  Raw, new, validate, is_hex, hex_digit, version_byte, variant_byte, not_version_4, not_canonical,
}
use cosmosigner.ClusterId.Uuid.{IsUuid}
use cosmosigner.ClusterId.Format.{validate_iff}

abbrev raw : Raw
raw = record {
  b0 = 0;
  b1 = 17;
  b2 = 34;
  b3 = 51;
  b4 = 68;
  b5 = 85;
  b6 = 255;
  b7 = 119;
  b8 = 255;
  b9 = 153;
  b10 = 170;
  b11 = 187;
  b12 = 204;
  b13 = 221;
  b14 = 238;
  b15 = 255;
}

new_run : new raw ≡ codes "00112233-4455-4f77-bf99-aabbccddeeff"
unfolding new hex_digit version_byte variant_byte
new_run = refl

wrong_version : validate (codes "00112233-4455-1f77-bf99-aabbccddeeff") ≡ err not_version_4
unfolding validate is_hex
wrong_version = refl

uppercase : validate (codes "00112233-4455-4F77-bf99-aabbccddeeff") ≡ err not_canonical
unfolding validate is_hex
uppercase = refl

validate_iff_example :
    (validate (codes "00112233-4455-4f77-bf99-aabbccddeeff") ≡ ok tt)
    ↔ IsUuid (codes "00112233-4455-4f77-bf99-aabbccddeeff")
validate_iff_example = validate_iff (codes "00112233-4455-4f77-bf99-aabbccddeeff")
