-- ===== src/NetWatch.antt =====
-- qml/utilities/net_watch.py: the source address that the kernel would choose for the broker, with a cache
-- of the broker's address. A time is in whole seconds; `getaddrinfo` and the route lookup answer as
-- arguments say.
pub mod Fresh
use harbour_find_my_device.Prelude.{
  ℕ, ◌+◌, ◌-◌, Bool, true, false, not, ◌&&◌, Option, none, some, List, [], ◌∷◌, ltb, ◌=?◌,
  if◌then◌else◌,
}
use harbour_find_my_device.Text.{Text}

-- `_DNS_TTL_S`
abbrev pub dns_ttl_s : ℕ
dns_ttl_s = 300

-- the part of an answer of `getaddrinfo` that is used
pub record Info : Type 0 where
  pub is_inet : Bool
  pub addr : Text

-- `_dns_cache` once it is filled
pub record Cached : Type 0 where
  pub host : Text
  pub info : Info
  pub ts : ℕ

-- the first entry after the sort, which is stable: the first of IPv4, or else the first
unfoldable pub first_inet : Info → List Info → Info
first_inet first [] = first
first_inet first (i ∷ infos) = if i.is_inet then i else first_inet first infos

unfoldable pub preferred : List Info → Option Info
unfolding first_inet
preferred [] = none
preferred (i ∷ infos) = some (first_inet i (i ∷ infos))

unfoldable pub keep_info : Text → ℕ → Option Info → Option Cached → Option Info × Option Cached
keep_info host now none cache = (none, cache)
keep_info host now (some i) cache = (some i, some (record { host = host; info = i; ts = now }))

-- the lookup proper; `none` is that `getaddrinfo` raises OSError
unfoldable pub look_up : Text → ℕ → Option (List Info) → Option Cached → Option Info × Option Cached
unfolding preferred keep_info
look_up host now none cache = (none, cache)
look_up host now (some infos) cache = keep_info host now (preferred infos) cache

unfoldable pub is_fresh : Text → ℕ → Cached → Bool
is_fresh host now c = c.host =? host && ltb (now - c.ts) dns_ttl_s

unfoldable pub resolve_with :
    Option Cached → Text → ℕ → Option (List Info) → Option Info × Option Cached
unfolding look_up is_fresh
resolve_with none host now answer = look_up host now answer none
resolve_with (some c) host now answer =
    if is_fresh host now c then (some c.info, some c) else look_up host now answer (some c)

-- `_resolve`
unfoldable pub resolve : Text → ℕ → Option (List Info) → Option Cached → Option Info × Option Cached
unfolding resolve_with
resolve host now answer cache = resolve_with cache host now answer

-- `preferred_src_ip`; `route` is what the socket says, `none` for OSError
unfoldable pub src_ip : (Info → Option Text) → Option Info → Option Text
src_ip route none = none
src_ip route (some i) = route i

unfoldable pub preferred_src_ip :
    (Info → Option Text)
    → Text
    → ℕ
    → Option (List Info)
    → Option Cached
    → Option Text × Option Cached
unfolding src_ip
preferred_src_ip route host now answer cache =
    let r = resolve host now answer cache in (src_ip route r.0, r.1)
