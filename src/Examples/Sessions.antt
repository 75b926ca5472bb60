-- ===== src/Examples/Sessions.antt =====
-- Sessions of mobile data, cycles of the GPS daemon, and jobs of the command worker.
use harbour_find_my_device.Prelude.{
  ℕ, ◌≡◌, refl, Bool, true, false, ◌&&◌, none, some, List, [], ◌∷◌, arith, any, ◌=?◌,
}
use harbour_find_my_device.Text.{codes, starts_with, is_empty, strip, is_space}
use harbour_find_my_device.Database.{Db}
use harbour_find_my_device.Mqtt.{started}
use harbour_find_my_device.Mqtt.Publish.{Once, no_puback, delivered}
use harbour_find_my_device.MobileData.{Service, Phone, Session, recover, owned_in}
use harbour_find_my_device.MobileData.Calls.{works, dies, World, Io, pure, state_of}
use harbour_find_my_device.MobileData.Sessions.{
  Reading, taken, Setting, temporarily_enabled, wait_online,
}
use harbour_find_my_device.MobileData.Crash.{Kept}
use harbour_find_my_device.MobileData.Recovery.{fresh, recover-temporarily_enabled}
use harbour_find_my_device.MobileData.Waiting.{is_over, wait_online_ends}
use harbour_find_my_device.GpsDaemon.{off, Cycle}
use harbour_find_my_device.Daemon.{Job, command, ack, uploads, mqtt, sms}
use harbour_find_my_device.Daemon.Uploads.{Photos, moved, looks, retries, Step}
use harbour_find_my_device.Daemon.Executor.{Answers, drain}
use harbour_find_my_device.Daemon.Executor.Quiet.{acked, is_wipe}
use harbour_find_my_device.Daemon.Executor.Acks.{cmds_of, acked-drain}
use harbour_find_my_device.Daemon.Executor.Wipes.{is_delete, wipes-drain}
use harbour_find_my_device.Gps.{get_latest}
use harbour_find_my_device.Daemon.Locate.{Found, do_gps}
use harbour_find_my_device.Daemon.Locate.Newest.{fix_sent, fix_stored, do_gps-get_latest}
use harbour_find_my_device.Examples.{friend_key, own_key, moment, later_moment, sample, sample_fix}

abbrev data_sim : Service
data_sim = record {
  path = codes "/cellular_26201_context1";
  type = codes "cellular";
  state = codes "idle";
  auto_connect = false;
  roaming = false;
}

-- what the modem manager gives; the IMSI is the fourth value
abbrev sim_values : List (List ℕ)
sim_values = [] ∷ [] ∷ [] ∷ codes "26201" ∷ []

abbrev pub phone : Phone
phone = record { services = data_sim ∷ []; sims = some sim_values; owned = none }

abbrev pub online_at_once : Setting
online_at_once = record {
  mark = works;
  readings = record { seen = some (codes "online"); grace_at = 500; deadline_at = 500 } ∷ [];
  tries = taken ∷ [];
}

-- every call works until the process dies when it asks for the bus to switch off again
abbrev dying : World Phone
dying = record { state = phone; fates = works ∷ works ∷ works ∷ works ∷ works ∷ works ∷ dies ∷ [] }

abbrev pub idle_body : Session → Io Phone Bool
idle_body session = pure true

recover-temporarily_enabled_example : Kept phone.services (
    state_of
      (recover (fresh (state_of (temporarily_enabled true online_at_once 30000 idle_body dying)))))
unfolding any owned_in is_empty strip is_space
recover-temporarily_enabled_example =
    recover-temporarily_enabled true online_at_once 30000 idle_body dying (refl, tt) (refl, tt) refl
      tt (λ session w. refl)

abbrev silent : ℕ → Reading
silent at = record { seen = none; grace_at = at; deadline_at = at }

wait_online_ends_example :
    is_over (wait_online 1000 none (silent 0 ∷ silent 600 ∷ silent 1200 ∷ [])) ≡ true
wait_online_ends_example =
    wait_online_ends 2 1000 (silent 0 ∷ silent 600 ∷ silent 1200 ∷ []) (omega arith) refl
      (omega arith, (omega arith, (omega arith, tt)))

abbrev lost : Once
lost = record {
  start = started;
  connack = none;
  retry_start = started;
  retry_connack = none;
  link = record {
    paho = true;
    first = no_puback;
    first_paho = false;
    start = started;
    connack = none;
    second = delivered;
    second_paho = true;
  };
}

abbrev cycle : Cycle
cycle = record {
  draw = λ i. own_key;
  now = moment;
  fixed = none;
  fixed_times = (moment, later_moment);
  fixed_speed = 0;
  fixed_accuracy = 1;
  battery = some 80;
  why = none;
  found = some sample_fix;
  stopping = false;
  after = sample;
  have_paho = true;
  once = lost;
  setting = online_at_once;
}

abbrev webdav : Db
webdav = record sample {
  settings =
      ("webdav_url", some (codes "https://cloud")) ∷ ("webdav_username", some (codes "me")) ∷ [];
}

abbrev no_photos : Photos
no_photos = record {
  pending = [];
  stored = [];
  uploaded = [];
  retry_at = 0;
  job_queued = false;
  jobs = 0;
  offline = false;
}

abbrev later_steps : List Step
later_steps = looks webdav 500 true ∷ retries webdav 510 (λ t. moved) ∷ []

abbrev willing : Answers
willing = record {
  ring = some true;
  stop_ring = none;
  lock = some none;
  gps = some false;
  camera = none;
  home = codes "/home/defaultuser";
  has_client = true;
  online = true;
}

abbrev four_jobs : List Job
four_jobs =
    command (codes "RING") none mqtt none
    ∷ ack (codes "LOCK") (codes "auth_failed")
    ∷ uploads
    ∷ command (codes "DELETE") none mqtt none
    ∷ []

acked-drain_example : acked (drain four_jobs (λ j. willing) 0 sample) ≡ cmds_of four_jobs
acked-drain_example = acked-drain four_jobs (λ j. willing) 0 sample (λ j. refl)

wipes-drain_example :
    any is_wipe (drain four_jobs (λ j. willing) 0 sample)
    ≡ (any (is_delete sample) four_jobs && starts_with (codes "/home/defaultuser") (codes "/home/"))
wipes-drain_example =
    wipes-drain four_jobs (λ j. willing) (codes "/home/defaultuser") 0 sample (λ j. refl)

-- location is off and may not be switched on, so the stored position is sent
abbrev nothing_new : Found
nothing_new = record {
  fixed = none;
  fixed_times = (moment, later_moment);
  fixed_speed = 0;
  fixed_accuracy = 1;
  why = some off;
  fix = none;
  battery = none;
  has_client = true;
}

do_gps-get_latest_example :
    (fix_sent (do_gps own_key nothing_new sms (some (codes "+49")) sample).1.position
      ≡ fix_stored
          (get_latest own_key (do_gps own_key nothing_new sms (some (codes "+49")) sample).1.db))
    × (get_latest friend_key (do_gps own_key nothing_new sms (some (codes "+49")) sample).1.db
        ≡ get_latest friend_key sample)
unfolding ◌=?◌
do_gps-get_latest_example =
    do_gps-get_latest own_key nothing_new sms (some (codes "+49")) sample friend_key
      (omega arith, tt) refl
