-- ===== src/Daemon/Uploads/Kept.antt =====
-- No photo is lost before it is uploaded.
use harbour_find_my_device.Prelude.{
  ℕ, ◌≡◌, Bool, true, false, ◌||◌, arith, ltb, Bool-cases, inl, inr,
}
use harbour_find_my_device.Text.{Text}
use harbour_find_my_device.Daemon.Uploads.{Photos, has, Shot, not_captured, queue_if_due}

-- the photo is on the device, or the server has taken it
abbrev pub is_cared : Text → Photos → Bool
is_cared name p = has name p.pending || has name p.stored || has name p.uploaded

module _ (name : Text) where
  cared-queue_if_due :
      (now : ℕ) (p : Photos) → is_cared name p ≡ true → is_cared name (queue_if_due now p) ≡ true
  unfolding queue_if_due
  cared-queue_if_due now p h = elim (Bool-cases (ltb now p.retry_at)) [
    | inl early ↦ ground (arith, h, early)
    | inr due ↦ ground (arith, h, due)
  ]

abbrev pub is_captured : Shot → Bool
is_captured not_captured = false
is_captured _ = true
