-- ===== src/FixedLocation.antt =====
-- fmd/fixedloc.py, daemon-rpm/src/fixed_location.py, and the connected networks in fmd/runtime.py: "GPS
-- at Home", the coordinates from the settings in place of a GPS fix while a chosen WiFi is connected.
-- `float` is Python's function of that name (`none` is ValueError), and `within n x` is -n <= x <= n.
pub mod Mirror
use harbour_find_my_device.Prelude.{
  ℕ, ◌+◌, String, Bool, true, false, not, ◌&&◌, ◌||◌, Option, none, some, List, [], ◌∷◌, ◌++◌, any,
  keep, ◌=?◌, if◌then◌else◌,
}
use harbour_find_my_device.Text.{Text, codes, is_empty, strip, split_on}
use harbour_find_my_device.Text.Sort.{sorted}
use harbour_find_my_device.Database.{Real, Db}
use harbour_find_my_device.Settings
use harbour_find_my_device.Settings.{or_blank}
use harbour_find_my_device.Settings.Defaults.{fixed_location_wifi, fixed_location_coords}
use harbour_find_my_device.Runtime
use harbour_find_my_device.Runtime.{Daemon, Status, daemon_status}

-- `_CONNECTED_WIFI_KEY`
abbrev pub connected_wifi_key : String
connected_wifi_key = "connected_wifi"

-- `"\n".join(names)`
unfoldable pub join_lines : List Text → Text
join_lines [] = []
join_lines (name ∷ []) = name
join_lines (name ∷ other ∷ names) = name ++ (b'\n' ∷ join_lines (other ∷ names))

-- `set_connected_wifi`
unfoldable pub set_connected_wifi : List Text → Db → Db
unfolding join_lines sorted
set_connected_wifi names db = Runtime.set connected_wifi_key (join_lines (sorted names)) db

unfoldable pub is_stopped : Status → Bool
is_stopped Status.not_installed_or_stopped = true
is_stopped _ = false

-- `connected_wifi`, in the app
unfoldable pub connected_wifi : ℕ → Db → List Text
unfolding is_stopped
connected_wifi now db =
    if is_stopped (daemon_status Daemon.cmd now db)
    then []
    else keep (λ n. not (is_empty n)) (split_on b'\n' (Runtime.get connected_wifi_key [] db))

-- a service as ConnMan lists it: its name, its type and its state
pub record Service : Type 0 where
  pub name : Text
  pub kind : Text
  pub state : Text

-- `connected_wifi_names`; `none` is that ConnMan cannot be asked
unfoldable pub wifi_names : List Service → List Text
wifi_names [] = []
wifi_names (s ∷ services) =
    if s.kind =? codes "wifi" && (s.state =? codes "ready" || s.state =? codes "online")
    then s.name ∷ wifi_names services
    else wifi_names services

unfoldable pub connected_wifi_names : Option (List Service) → List Text
unfolding wifi_names
connected_wifi_names none = []
connected_wifi_names (some services) = wifi_names services

unfoldable pub is_configured : Option (Text × (Real × Real)) → Bool
is_configured none = false
is_configured (some conf) = true

unfoldable pub same_value : Text → Option Text → Bool
same_value value none = false
same_value value (some v) = v =? value

-- the end of `publish_wifi_state`: the value published last, and the database. `saves` says that the
-- database can be written.
unfoldable pub publish_names : List Text → Bool → Option Text × Db → Option Text × Db
unfolding same_value
publish_names names saves s =
    let value = join_lines (sorted names) in
    if same_value value s.0
    then s
    else if saves
    then (some value, set_connected_wifi names s.1)
    else s

module _ (float : Text → Option Real) (within : ℕ → Real → Bool) where
  -- `lat, lon = [float(p.strip()) for p in …]`
  unfoldable pub two_floats : Option Real → Option Real → Option (Real × Real)
  two_floats (some lat) (some lon) = some (lat, lon)
  two_floats _ _ = none

  unfoldable pub coordinates : List Text → Option (Real × Real)
  unfolding two_floats
  coordinates (lat ∷ lon ∷ []) = two_floats (float (strip lat)) (float (strip lon))
  coordinates _ = none

  unfoldable pub in_range : Text → Option (Real × Real) → Option (Text × (Real × Real))
  in_range ssid none = none
  in_range ssid (some c) = if within 90 c.0 && within 180 c.1 then some (ssid, c) else none

  -- `configured`
  unfoldable pub configured : Db → Option (Text × (Real × Real))
  unfolding coordinates in_range or_blank
  configured db =
      let ssid = strip (or_blank (Settings.get fixed_location_wifi db)) in
      let coords = strip (or_blank (Settings.get fixed_location_coords db)) in
      if is_empty ssid || is_empty coords
      then none
      else in_range ssid (coordinates (split_on b',' coords))

  unfoldable pub is_connected : Text → List Text → Bool
  is_connected ssid names = any (λ n. n =? ssid) names

  unfoldable pub match_with : Option (Text × (Real × Real)) → List Text → Option (Real × Real)
  unfolding is_connected
  match_with none names = none
  match_with (some conf) names = if is_connected conf.0 names then some conf.1 else none

  -- `match`, of the names that its argument returns
  unfoldable pub match : List Text → Db → Option (Real × Real)
  unfolding match_with
  match names db = match_with (configured db) names

  unfoldable pub names_to_publish : Option (List Service) → Db → List Text
  unfolding is_configured
  names_to_publish services db =
      if is_configured (configured db) then connected_wifi_names services else []

  unfoldable pub publish_wifi_state :
      Option (List Service) → Bool → Option Text × Db → Option Text × Db
  unfolding names_to_publish publish_names
  publish_wifi_state services saves s = publish_names (names_to_publish services s.1) saves s
