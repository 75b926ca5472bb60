-- ===== src/Settings/Defaults.antt =====
-- The keys of settings.py, the values of missing keys, and the keys that are stored obfuscated.
use text.Mathlib.Text.{◌==◌ as str_eq}
use harbour_find_my_device.Prelude.{String, Bool, ◌||◌, Option, List, [], ◌∷◌}
use harbour_find_my_device.Text.{Text, codes}
use harbour_find_my_device.Table.{lookup}

abbrev pub device_label : String
device_label = "device_label"

abbrev pub gps_interval_min : String
gps_interval_min = "gps_interval_min"

abbrev pub auto_enable_location : String
auto_enable_location = "auto_enable_location"

abbrev pub auto_enable_mobile_data : String
auto_enable_mobile_data = "auto_enable_mobile_data"

abbrev pub fixed_location_wifi : String
fixed_location_wifi = "fixed_location_wifi"

abbrev pub fixed_location_coords : String
fixed_location_coords = "fixed_location_coords"

abbrev pub mqtt_enabled : String
mqtt_enabled = "mqtt_enabled"

abbrev pub mqtt_server : String
mqtt_server = "mqtt_server"

abbrev pub mqtt_tls : String
mqtt_tls = "mqtt_tls"

abbrev pub mqtt_username : String
mqtt_username = "mqtt_username"

abbrev pub mqtt_password : String
mqtt_password = "mqtt_password"

abbrev pub mqtt_port : String
mqtt_port = "mqtt_port"

abbrev pub background_enabled : String
background_enabled = "background_enabled"

abbrev pub ring_enabled : String
ring_enabled = "ring_enabled"

abbrev pub ring_tone : String
ring_tone = "ring_tone"

abbrev pub lock_enabled : String
lock_enabled = "lock_enabled"

abbrev pub delete_enabled : String
delete_enabled = "delete_enabled"

abbrev pub camera_enabled : String
camera_enabled = "camera_enabled"

abbrev pub webdav_url : String
webdav_url = "webdav_url"

abbrev pub webdav_username : String
webdav_username = "webdav_username"

abbrev pub webdav_password : String
webdav_password = "webdav_password"

abbrev pub sms_remote_enabled : String
sms_remote_enabled = "sms_remote_enabled"

abbrev pub sms_gps_enabled : String
sms_gps_enabled = "sms_gps_enabled"

abbrev pub sms_whitelist : String
sms_whitelist = "sms_whitelist"

abbrev pub tile_provider : String
tile_provider = "tile_provider"

abbrev pub geoapify_key : String
geoapify_key = "geoapify_key"

-- `DEFAULTS`
unfoldable pub defaults : List (String × Text)
defaults =
    (device_label, codes "")
    ∷ (gps_interval_min, codes "5")
    ∷ (auto_enable_location, codes "0")
    ∷ (auto_enable_mobile_data, codes "0")
    ∷ (fixed_location_wifi, codes "")
    ∷ (fixed_location_coords, codes "")
    ∷ (mqtt_enabled, codes "0")
    ∷ (mqtt_server, codes "")
    ∷ (mqtt_tls, codes "1")
    ∷ (mqtt_username, codes "")
    ∷ (mqtt_password, codes "")
    ∷ (mqtt_port, codes "8883")
    ∷ (background_enabled, codes "0")
    ∷ (ring_enabled, codes "0")
    ∷ (ring_tone, codes "/usr/share/sounds/jolla-ringtones/stereo/jolla-ringtone.ogg")
    ∷ (lock_enabled, codes "0")
    ∷ (delete_enabled, codes "0")
    ∷ (camera_enabled, codes "0")
    ∷ (webdav_url, codes "")
    ∷ (webdav_username, codes "")
    ∷ (webdav_password, codes "")
    ∷ (sms_remote_enabled, codes "0")
    ∷ (sms_gps_enabled, codes "0")
    ∷ (sms_whitelist, codes "")
    ∷ (tile_provider, codes "osm")
    ∷ (geoapify_key, codes "")
    ∷ []

-- `DEFAULTS.get(key)`
unfoldable pub default_of : String → Option Text
default_of key = lookup key defaults

-- `_SECRET_KEYS`
unfoldable pub is_secret : String → Bool
is_secret key = str_eq key mqtt_password || str_eq key webdav_password
