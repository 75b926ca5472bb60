-- ===== src/NetWatch/Fresh.antt =====
-- The address that is used for a host is one that DNS gave for that host less than five minutes ago.
use harbour_find_my_device.Prelude.{
  ℕ, ◌+◌, ◌-◌, ◌<◌, ◌≡◌, refl, Option, none, some, List, [], ◌∷◌, =?_iff, ltb→lt, ◌⊎◌, arith, inl,
  inr, Bool-cases,
}
use mathlib.Core.Path.{subst}
use harbour_find_my_device.Text.{Text}
use harbour_find_my_device.NetWatch.{
  Info, Cached, preferred, keep_info, look_up, is_fresh, resolve_with, resolve, dns_ttl_s,
}

-- `dns host t` is what `getaddrinfo` answers at the time `t`
module _ (dns : Text → ℕ → Option (List Info)) where
  -- the address was the preferred one of an answer for the host at the time
  abbrev pub WasGiven : Text → ℕ → Info → Type 0
  WasGiven host t i = (infos : List Info) × (dns host t ≡ some infos) × (preferred infos ≡ some i)

  abbrev pub IsCached : Option Cached → Type 0
  IsCached none = Unit
  IsCached (some c) = WasGiven c.host c.ts c.info

  abbrev pub IsRecent : Text → ℕ → Option Info → Type 0
  IsRecent host now none = (dns host now ≡ none) ⊎ (dns host now ≡ some [])
  IsRecent host now (some i) = (t : ℕ) × (now < t + dns_ttl_s) × WasGiven host t i

  -- a lookup of a host at a time
  unfoldable pub resolves : List (Text × ℕ) → Option Cached → Option Cached
  unfolding resolve
  resolves [] cache = cache
  resolves ((host, now) ∷ rest) cache = resolves rest (resolve host now (dns host now) cache).1

  kept :
      (host : Text) (now : ℕ) (infos : List Info) (o : Option Info) (cache : Option Cached)
      → dns host now ≡ some infos
      → preferred infos ≡ o
      → IsCached cache
      → IsRecent host now (keep_info host now o cache).0 × IsCached (keep_info host now o cache).1
  unfolding keep_info preferred
  kept host now [] none cache d p c = (inr d, c)
  kept host now (i ∷ infos) none cache d p c = absurd (cc p)
  kept host now infos (some i) cache d p c = ((now, omega arith, (infos, d, p)), (infos, d, p))

  looked_up :
      (host : Text) (now : ℕ) (o : Option (List Info)) (cache : Option Cached)
      → dns host now ≡ o
      → IsCached cache
      → IsRecent host now (look_up host now o cache).0 × IsCached (look_up host now o cache).1
  unfolding look_up
  looked_up host now none cache d c = (inl d, c)
  looked_up host now (some infos) cache d c = kept host now infos (preferred infos) cache d refl c

  resolved :
      (host : Text) (now : ℕ) (cache : Option Cached)
      → IsCached cache
      → IsRecent host now (resolve host now (dns host now) cache).0
        × IsCached (resolve host now (dns host now) cache).1
  unfolding resolve resolve_with is_fresh
  resolved host now none c = looked_up host now (dns host now) none refl c
  resolved host now (some x) c = elim (Bool-cases (is_fresh host now x)) [
    | inl y ↦ simp y (
      (
        x.ts,
        ground (arith, ltb→lt (now - x.ts) 300),
        subst (λ h. WasGiven h x.ts x.info) ((=?_iff x.host host).0 (ground arith)) c,
      ),
      c,
    )
    | inr n ↦ simp n (looked_up host now (dns host now) (some x) refl c)
  ]

  cached-resolves :
      (lookups : List (Text × ℕ)) (cache : Option Cached)
      → IsCached cache
      → IsCached (resolves lookups cache)
  unfolding resolves
  cached-resolves [] cache c = c
  cached-resolves ((host, now) ∷ rest) cache c =
      cached-resolves rest (resolve host now (dns host now) cache).1 (resolved host now cache c).1

  -- After any lookups, of any hosts at any times, an address that a lookup returns for a host is the
  -- preferred one that DNS gave for that very host, less than 300 seconds before or at some time
  -- since. No address is returned only where DNS has none for the host now: it answers with an error
  -- or with no entry.
  pub resolve-resolves :
      (lookups : List (Text × ℕ)) (host : Text) (now : ℕ)
      → IsRecent host now (resolve host now (dns host now) (resolves lookups none)).0
  resolve-resolves lookups host now =
      (resolved host now (resolves lookups none) (cached-resolves lookups none tt)).0
