-- ===== src/Injection/Delivery.antt =====
-- nan/injection/hub.py: which services a turn is delivered to.
use nan_itself.Base.{
  ℕ, ◌-◌, ◌<◌, String, ◌≡◌, refl, Bool, true, false, not, ◌&&◌, none, some, [], ◌∷◌, arith,
  string_eq, nat_eq,
}
use nan_itself.Base.Dict.{Dict, lookup, Unique}
use nan_itself.Turn.Model.{Turn}
use nan_itself.Injection.Client.{ServiceEntry, Network}
use nan_itself.Injection.Hub.{
  Hub, unknown, heartbeat, drop_stale, is_stale, evict_stale_services, is_inject, service_delta,
  hub_inject,
}

-- Registered, of the wanted mode, and its heartbeat no older than the limit.

abbrev pub is_due : (inject_mode : Bool) → (ttl now : ℕ) → ServiceEntry → Bool
is_due true ttl now e = is_inject e && not (is_stale ttl now e)
is_due false ttl now e = not (is_inject e) && not (is_stale ttl now e)

lookup-drop_stale_absent :
    (ttl now : ℕ) (i : String) (d : Dict String ServiceEntry)
    → lookup i d ≡ none
    → lookup i (drop_stale ttl now d) ≡ none
unfolding lookup drop_stale
lookup-drop_stale_absent ttl now i [] h = refl
lookup-drop_stale_absent ttl now i ((j, f) ∷ d) h =
    ground (arith, lookup-drop_stale_absent ttl now i d)

lookup-drop_stale :
    (ttl now : ℕ) (i : String) (d : Dict String ServiceEntry) (e : ServiceEntry)
    → Unique d
    → lookup i d ≡ some e
    → is_stale ttl now e ≡ true
    → lookup i (drop_stale ttl now d) ≡ none
unfolding lookup drop_stale
lookup-drop_stale ttl now i [] e u h stale = refl
lookup-drop_stale ttl now i ((j, f) ∷ d) e (fresh, u) h stale =
    ground (arith, lookup-drop_stale ttl now i d e u, lookup-drop_stale_absent ttl now i d)

-- A service that has not beaten for longer than the limit is gone at the next turn's boundary: its
-- heartbeat is then answered as unknown, and changes nothing.
pub heartbeat-expired :
    (network : Network) (now later : ℕ) (turn : Turn) (h : Hub) (i : String) (e : ServiceEntry)
    → Unique h.services
    → lookup i h.services ≡ some e
    → h.heartbeat_ttl < now - e.last_seen
    → heartbeat later i (hub_inject network now turn h).0
      ≡ ((hub_inject network now turn h).0, unknown)
unfolding heartbeat hub_inject evict_stale_services service_delta
heartbeat-expired network now later turn h i e u found old =
    let gone = lookup-drop_stale h.heartbeat_ttl now i h.services e u found (ground arith) in
    ground (arith, gone)
