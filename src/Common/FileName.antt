-- ===== src/Common/FileName.antt =====
-- class FileName of lib/common/src/common.hpp and common.cpp, with `strcmp` and `strncasecmp`: a text
-- is the list of its bytes before the closing null.
use can_systems.Prelude.{
  ℕ, ◌+◌, ◌<◌, ◌≡◌, refl, arith, Bool, true, false, ◌&&◌, ◌||◌, List, [], ◌∷◌, map, leb, ◌==◌,
  if◌then◌else◌, length, take,
}
use Prim.Native.Char.{code}
use Prim.Native.String.{String}

abbrev pub codes : String → List ℕ
codes String.[] = []
codes (String.◌∷◌ c s) = code c ∷ codes s

-- `strcmp(a, b) == 0`.
unfoldable pub same_text : List ℕ → List ℕ → Bool
same_text [] [] = true
same_text (x ∷ xs) (y ∷ ys) = x == y && same_text xs ys
same_text _ _ = false

unfoldable pub to_lower : ℕ → ℕ
to_lower c = if leb b'A' c && leb c b'Z' then c + 32 else c

-- `strncasecmp(a, b, n) == 0`.
unfoldable pub same_ignoring_case : ℕ → List ℕ → List ℕ → Bool
same_ignoring_case n a b = same_text (map to_lower (take n a)) (map to_lower (take n b))

unfoldable pub temp_file_location : List ℕ
temp_file_location = codes "/temp.tmp"

unfoldable pub ota_fw_location : List ℕ
ota_fw_location = codes "espFirmware"

unfoldable pub can_alert_fw_location : List ℕ
can_alert_fw_location = codes "/canAlertFw.bin"

unfoldable pub mqtt_server_cert_location : List ℕ
mqtt_server_cert_location = codes "/config/mosq-ca.crt"

unfoldable pub mqtt_server_cred_location : List ℕ
mqtt_server_cred_location = codes "/config/server.json"

unfoldable pub tube_config_location : List ℕ
tube_config_location = codes "/config/tube.json"

-- `allowedLocations`, and the loop over them.
unfoldable pub allowed_locations : List (List ℕ)
allowed_locations =
    ota_fw_location ∷ mqtt_server_cert_location ∷ mqtt_server_cred_location ∷ can_alert_fw_location
    ∷ tube_config_location ∷ []

unfoldable pub is_one_of : List ℕ → List (List ℕ) → Bool
is_one_of name [] = false
is_one_of name (location ∷ rest) = same_text name location || is_one_of name rest

unfoldable pub is_valid_file_name : List ℕ → Bool
is_valid_file_name name = is_one_of name allowed_locations

unfoldable pub is_own_firmware_file_name : List ℕ → Bool
is_own_firmware_file_name name = same_text name ota_fw_location

pub same_text_refl : (xs : List ℕ) → same_text xs xs ≡ true
unfolding same_text
same_text_refl [] = refl
same_text_refl (x ∷ xs) = ground (arith, same_text_refl xs)

pub same_text-length : (xs ys : List ℕ) → same_text xs ys ≡ true → length xs ≡ length ys
unfolding same_text
same_text-length [] [] h = refl
same_text-length [] (y ∷ ys) h = absurd (ground arith)
same_text-length (x ∷ xs) [] h = absurd (ground arith)
same_text-length (x ∷ xs) (y ∷ ys) h = ground (arith, same_text-length xs ys)

-- The names that are accepted fit the buffer of the transfer, which holds 31 characters.
pub is_valid_file_name-length : (name : List ℕ) → is_valid_file_name name ≡ true → length name < 20
unfolding is_valid_file_name is_one_of allowed_locations ota_fw_location can_alert_fw_location
    mqtt_server_cert_location mqtt_server_cred_location tube_config_location
is_valid_file_name-length name h = ground (
  arith,
  same_text-length name ota_fw_location,
  same_text-length name can_alert_fw_location,
  same_text-length name mqtt_server_cert_location,
  same_text-length name mqtt_server_cred_location,
  same_text-length name tube_config_location,
)
