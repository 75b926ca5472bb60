-- ===== src/Daemon/Executor/Quiet.antt =====
-- The commands but DELETE neither acknowledge anything themselves nor wipe.
use harbour_find_my_device.Prelude.{
  ◌≡◌, refl, Bool, true, false, Option, none, some, List, [], ◌∷◌, any,
}
use harbour_find_my_device.Text.{Text}
use harbour_find_my_device.Daemon.Executor.{
  Act, locates, photographs, wipes, acknowledges, Ran, do_ring, do_stop_ring, do_lock, do_other,
}

-- the commands that are acknowledged, in their order
unfoldable pub acked : List Act → List Text
acked [] = []
acked (acknowledges cmd result wait ∷ acts) = cmd ∷ acked acts
acked (_ ∷ acts) = acked acts

-- the act deletes everything below a directory
abbrev pub is_wipe : Act → Bool
is_wipe (wipes dir) = true
is_wipe _ = false

abbrev pub IsQuiet : Ran → Type 0
IsQuiet ran = (acked ran.1 ≡ []) × (any is_wipe ran.1 ≡ false)

pub do_ring-IsQuiet : (o : Option Bool) → IsQuiet (do_ring o)
unfolding acked any do_ring
do_ring-IsQuiet none = (refl, refl)
do_ring-IsQuiet (some done) = (refl, refl)

pub do_stop_ring-IsQuiet : (o : Option Bool) → IsQuiet (do_stop_ring o)
unfolding acked any do_stop_ring
do_stop_ring-IsQuiet none = (refl, refl)
do_stop_ring-IsQuiet (some done) = (refl, refl)

pub do_lock-IsQuiet : (o : Option (Option Text)) → IsQuiet (do_lock o)
unfolding acked any do_lock
do_lock-IsQuiet none = (refl, refl)
do_lock-IsQuiet (some how) = (refl, refl)

pub locates-IsQuiet : (o : Option Bool) → IsQuiet (do_other locates o)
unfolding acked any do_other
locates-IsQuiet none = (refl, refl)
locates-IsQuiet (some done) = (refl, refl)

pub photographs-IsQuiet : (o : Option Bool) → IsQuiet (do_other photographs o)
unfolding acked any do_other
photographs-IsQuiet none = (refl, refl)
photographs-IsQuiet (some done) = (refl, refl)
