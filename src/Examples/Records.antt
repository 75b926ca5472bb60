-- ===== src/Examples/Records.antt =====
-- A run of a session over the record of another SIM.
use harbour_find_my_device.Prelude.{◌≡◌, refl, true, none, some, ◌=?◌, keep, any}
use harbour_find_my_device.Text.{
  codes, is_empty, strip, lstrip, rstrip, is_space, contains, starts_with,
}
use harbour_find_my_device.MobileData.{
  Phone, recover, read_owned, undo_interrupted, bus, service_props, find_service, wifi_among,
  of_type, in_use, imsi_in, choose_service, mark_owned, set_autoconnect, set_service, set_one,
  with_auto, clear_owned, or_none, new_session, clear_if_done, recover_found, owned_in,
}
use harbour_find_my_device.MobileData.Calls.{
  state_of, ◌>>=◌, attempt, read, read_as, caught, ended, then_do, write_as, write, finally,
  finished, after_return, store, first_fate, later_fates,
}
use harbour_find_my_device.MobileData.Sessions.{
  temporarily_enabled, exclusive, locked, enable_if_needed, enable_now, find_target, data_service,
  data_imsi, use_target, use_candidate, switch_on, after_switch, wait_online, latest, is_state,
  restore, restore_if, in_session, clear_if_off,
}
use harbour_find_my_device.MobileData.Recovery.{fresh}
use harbour_find_my_device.Examples.Sessions.{phone, online_at_once, idle_body}

-- A session that was killed left this record, and its SIM is not in the phone any more.
abbrev other_sim : Phone
other_sim = record phone { owned = some (codes "/cellular_26207_context1") }

-- The next session cannot recover that SIM, and its own record takes the place of the old one.
record_overwritten :
    (state_of (temporarily_enabled true online_at_once 30000 idle_body (fresh other_sim))).owned
    ≡ none
unfolding temporarily_enabled exclusive locked ◌>>=◌ recover read_owned attempt read read_as
    is_empty strip lstrip rstrip is_space undo_interrupted bus service_props find_service ◌=?◌
    caught ended then_do enable_if_needed enable_now find_target data_service data_imsi wifi_among
    of_type in_use imsi_in choose_service keep any use_target use_candidate switch_on mark_owned
    write_as set_autoconnect write set_service set_one with_auto after_switch wait_online latest
    is_state restore restore_if in_session finally finished after_return clear_if_off clear_owned
    store first_fate later_fates or_none new_session clear_if_done recover_found owned_in contains
    starts_with
record_overwritten = refl
