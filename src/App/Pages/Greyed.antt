-- ===== src/App/Pages/Greyed.antt =====
-- When the buttons of a device can be used: after an ack of the device, and after an edit of it.
use harbour_find_my_device.Prelude.{
  ◌≡◌, refl, sym, ap, ◌∙◌, Bool, true, false, not, ◌&&◌, ◌||◌, Option, none, some, ◌=?◌, =?_refl,
  arith,
}
use harbour_find_my_device.Text.{Text, is_empty}
use harbour_find_my_device.Exception.{Result, ok, raise}
use harbour_find_my_device.Database.{Device, Db}
use harbour_find_my_device.Devices
use harbour_find_my_device.Devices.{
  get_device, as_dict, row_to_dict, set_auth_result, set_deleted, admits_result,
}
use harbour_find_my_device.App.Timers.{Buttons, clear_ack_timeout, clear_ringing}
use harbour_find_my_device.App.{App, emit, on_buttons, devices_updated, command_result}
use harbour_find_my_device.App.Acks.{
  Ack, or_blank, note_verdict, note_wipe, note_ring, answered, on_remote_ack,
}
use harbour_find_my_device.App.Pages.{
  is_filled, is_failed, actions_enabled, recover, db_after, edit, follow, pin_arg,
}
use harbour_find_my_device.App.Pages.Rows.{
  stamped, map_option, some-injective, device_id-get_device, with_result, with_mark, authed, marked,
  get_device-authed, get_device-marked, is_wipe, result_after, Shown, set_auth_result-ok,
  Shown-verdict, Shown-wipe,
}

timed_out-note_ring :
    (k : Text) (ack : Ack) (b : Buttons) → (note_ring k ack b).timed_out ≡ b.timed_out
unfolding note_ring clear_ringing
timed_out-note_ring k ack b = ground arith

-- the buttons of a remote device whose timeout was cleared
enabled-Shown :
    (k : Text) (b : Buttons) (db : Db) (pin : Bool) (result : Option Text) (deleted : Bool)
    (s : Shown k db false pin result deleted)
    → b.timed_out k ≡ false
    → actions_enabled b s.0 ≡ (pin && (not (is_failed result) && not deleted))
unfolding actions_enabled
enabled-Shown k b db pin result deleted (d, g, own, p, r, w) t =
    rw (own, p, r, w, device_id-get_device k db d g) (rw t (ground arith))

abbrev concluded : Text → Ack → Db → App → App
concluded k ack db a = emit devices_updated (
    emit (command_result k ack.cmd (or_blank ack.result))
      (record a { db = db; buttons = note_ring k ack (clear_ack_timeout k a.buttons) }))

answered-ok :
    (k : Text) (ack : Ack) (now : Text) (a : App) (db db' : Db)
    → note_verdict k ack.result now a.db ≡ ok db
    → note_wipe k ack now db ≡ ok db'
    → answered k ack now a ≡ ok (concluded k ack db' a)
unfolding answered
answered-ok k ack now a db db' e f = rw e (rw f refl)

-- An ack of a remote device is never refused, and afterwards the buttons of the device can be used
-- just when the app has its PIN, the last answer that counts ("ok", "auth_failed" or "disabled") was
-- not "auth_failed", and it has not confirmed a wipe, with this ack or before. That no ack had come
-- in time is forgotten.
pub actions_enabled-on_remote_ack :
    (own k : Text) (ack : Ack) (now : Text) (a : App) (d : Device)
    → is_empty k ≡ false
    → (k =? own) ≡ false
    → get_device k a.db ≡ some d
    → d.is_own ≡ false
    → (b : App) × (on_remote_ack own k ack now a ≡ ok b)
      × ((e : Device) × (get_device k b.db ≡ some e)
          × (actions_enabled b.buttons e ≡ (
              is_filled d.pin
              && (not (is_failed (result_after ack d.last_auth_result))
                  && not (is_wipe ack || d.deleted)))))
unfolding on_remote_ack emit clear_ack_timeout
actions_enabled-on_remote_ack own k ack now a d filled other found remote =
    let (db, noted, (e, g, o, p, r, w)) = Shown-verdict k ack.result now a.db d found in
    let (db', wiped, s) = Shown-wipe k ack now db e g in
    let (f, fg, fo, fp, fr, fw) = s in
    let b = concluded k ack db' a in
    (
      b,
      rw (filled, other) (answered-ok k ack now a db db' noted wiped),
      (
        f,
        fg,
        enabled-Shown k b.buttons db' (is_filled d.pin) (result_after ack d.last_auth_result)
            (is_wipe ack || d.deleted)
            (f, fg, fo ∙ o ∙ remote, fp ∙ p, fr ∙ r, fw ∙ ap (λ x. is_wipe ack || x) w)
            (rw (timed_out-note_ring k ack (clear_ack_timeout k a.buttons)) (rw (=?_refl k) refl)),
      ),
    )

mapped :
    (f : Device → Device) (o : Option Device) (d : Device)
    → map_option f o ≡ some d
    → (x : Device) × (o ≡ some x) × (f x ≡ d)
mapped f none d e = cc
mapped f (some x) d e = (x, refl, some-injective e)

db-recover :
    (k : Text) (renamed : Bool) (now : Text) (b : App)
    → (recover k renamed now b).db ≡ marked k false now (authed k none now b.db)
unfolding recover db_after set_deleted emit on_buttons admits_result
db-recover k true now b = rw (set_auth_result-ok k none now b.db refl) refl
db-recover k false now b = rw (set_auth_result-ok k none now b.db refl) refl

buttons-recover :
    (k : Text) (renamed : Bool) (now : Text) (b : App)
    → (recover k renamed now b).buttons ≡ clear_ack_timeout k b.buttons
unfolding recover emit on_buttons
buttons-recover k true now b = refl
buttons-recover k false now b = refl

-- the row of a device after it has recovered
recovered :
    (k : Text) (renamed : Bool) (now : Text) (b : App) (d : Device)
    → get_device k (recover k renamed now b).db ≡ some d
    → (d.last_auth_result ≡ none) × (d.deleted ≡ false)
recovered k renamed now b d g =
    let db : Db = authed k none now b.db in
    let read = rw (db-recover k renamed now b) at g in
    let (x, ox, e) =
      mapped (stamped (with_mark false) now) (get_device k db) d
        (sym (get_device-marked k false now db) ∙ read) in
    let (y, oy, f) =
      mapped (stamped (with_result none now) now) (get_device k b.db) x
        (sym (get_device-authed k none now b.db) ∙ ox) in
    (
      sym (ap (λ (c : Device). c.last_auth_result) e)
          ∙ sym (ap (λ (c : Device). c.last_auth_result) f),
      sym (ap (λ (c : Device). c.deleted) e),
    )

-- the buttons of a device after it has recovered
enabled-recover :
    (k : Text) (renamed : Bool) (now : Text) (b : App) (d : Device)
    → get_device k (recover k renamed now b).db ≡ some d
    → d.is_own ≡ false
    → actions_enabled (recover k renamed now b).buttons d ≡ is_filled d.pin
unfolding actions_enabled clear_ack_timeout is_failed
enabled-recover k renamed now b d g own =
    let r = recovered k renamed now b d g in
    let at = device_id-get_device k (recover k renamed now b).db d g in
    rw (buttons-recover k renamed now b) (rw (own, at, r.0, r.1) (rw (=?_refl k) (ground arith)))

enabled-follow :
    (m : Result (Devices.Reply × Db)) (k : Text) (now : Text) (a : App)
    → (follow m (recover k false now) a).0 ≡ ok Devices.accepted
    → (d : Device) → get_device k (follow m (recover k false now) a).1.db ≡ some d
    → d.is_own ≡ false
    → actions_enabled (follow m (recover k false now) a).1.buttons d ≡ is_filled d.pin
unfolding follow
enabled-follow (raise x) k now a e d g own = cc
enabled-follow (ok ((true, message), db)) k now a e d g own =
    enabled-recover k false now (record a { db = db }) d g own
enabled-follow (ok ((false, message), db)) k now a e d g own = absurd (cc e)

-- An edit of a remote device that is accepted, without a rename, makes its buttons usable again, unless
-- the app has no PIN of it: a failed login, a missing answer and a wipe are forgotten.
pub actions_enabled-edit :
    (k : Text) (label pin : Option Text) (now : Text) (a : App)
    → (edit k label pin false now a).0 ≡ ok Devices.accepted
    → (d : Device) → get_device k (edit k label pin false now a).1.db ≡ some d
    → d.is_own ≡ false
    → actions_enabled (edit k label pin false now a).1.buttons d ≡ is_filled d.pin
unfolding edit
actions_enabled-edit k label pin now a e d g own =
    enabled-follow (Devices.update_device k label (pin_arg pin) now a.db) k now a e d g own
