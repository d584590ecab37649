-- ===== src/Gateway/Surfaces.antt =====
-- nan/gateway.py: `_validate_surface`, the surface table, its handlers and `_broadcast`. A handler is
-- one step: no send waits. Which sends fail is an argument. Of the messages to a client the ones about
-- surfaces are kept.
use nan_itself.Base.{
  ℕ, ◌-◌, String, Bool, true, false, not, ◌&&◌, ◌||◌, Option, none, some, List, [], ◌∷◌, ◌++◌, map,
  ltb, if◌then◌else◌, ◌==◌, string_eq, nat_eq, select,
}
use nan_itself.Base.Dict.{Dict, lookup, insert, erase}
use nan_itself.Base.Text.{strip}
use nan_itself.Utils.Loopback.{Parsers, is_loopback_url, is_local_asset}

-- What `str(body.get(key) or "")` is for each key.
pub record Body : Type 0 where
  pub service_id : String
  pub url : String
  pub title : String
  pub icon : String

pub record Spec : Type 0 where
  pub service_id : String
  pub url : String
  pub title : String
  pub icon : Option String

pub data Validated : Type 0 where
  valid : Spec → Validated
  rejected : (reason : String) → Validated

abbrev pub spec_of : (service_id url title icon : String) → Validated
spec_of i u t c =
    valid (record { service_id = i; url = u; title = t; icon = if c == "" then none else some c })

pub data SurfaceMessage : Type 0 where
  surface_added : Spec → SurfaceMessage
  surface_removed : (service_id : String) → SurfaceMessage

-- One connected desktop, and what it was sent.
pub record Client : Type 0 where
  pub id : ℕ
  pub received : List SurfaceMessage

pub record Gateway : Type 0 where
  pub clients : List Client
  pub surfaces : Dict String (Spec × ℕ)

pub data Reply : Type 0 where
  accepted unknown : Reply
  refused : (reason : String) → Reply

abbrev pub same_icon : Option String → Option String → Bool
same_icon none none = true
same_icon (some a) (some b) = a == b
same_icon _ _ = false

-- `a == b`
unfoldable pub same_spec : Spec → Spec → Bool
same_spec a b =
    a.service_id == b.service_id
    && (a.url == b.url && (a.title == b.title && same_icon a.icon b.icon))

abbrev pub send_to : SurfaceMessage → Client → Client
send_to m c = record c { received = c.received ++ m ∷ [] }

-- `_broadcast`: a client whose send fails is dropped.
unfoldable pub broadcast : (fails : ℕ → Bool) → SurfaceMessage → List Client → List Client
broadcast fails m [] = []
broadcast fails m (c ∷ cs) =
    let rest = broadcast fails m cs in if fails c.id then rest else send_to m c ∷ rest

abbrev pub is_unchanged : Option (Spec × ℕ) → Spec → Bool
is_unchanged none s = false
is_unchanged (some (old, seen)) s = same_spec old s

-- A spec that was accepted, at the time `now`.
unfoldable pub store_surface : (fails : ℕ → Bool) → (now : ℕ) → Spec → Gateway → Gateway
unfolding broadcast
store_surface fails now s g =
    let previous = lookup s.service_id g.surfaces in
    record {
      clients =
          if is_unchanged previous s
          then g.clients
          else broadcast fails (surface_added s) g.clients;
      surfaces = insert s.service_id (s, now) g.surfaces;
    }

-- One surface leaves the table and the desktops.
abbrev pub withdraw_one : (fails : ℕ → Bool) → String → Gateway → Gateway
withdraw_one fails i g = record {
  clients = broadcast fails (surface_removed i) g.clients;
  surfaces = erase i g.surfaces;
}

abbrev pub unregister_found :
    (fails : ℕ → Bool) → String → Option (Spec × ℕ) → Gateway → Gateway × Reply
unregister_found fails i none g = (g, unknown)
unregister_found fails i (some e) g = (withdraw_one fails i g, accepted)

-- `unregister_surface`
unfoldable pub unregister_surface : (fails : ℕ → Bool) → String → Gateway → Gateway × Reply
unfolding broadcast
unregister_surface fails i g = unregister_found fails i (lookup i g.surfaces) g

-- `[sid for sid, (_, seen) in self._surfaces.items() if seen < cutoff]`
abbrev pub expired : (cutoff : ℕ) → Dict String (Spec × ℕ) → List String
expired cutoff [] = []
expired cutoff ((i, (s, seen)) ∷ d) =
    let rest = expired cutoff d in if ltb seen cutoff then i ∷ rest else rest

-- The loop over the expired entries.
unfoldable pub withdraw : (fails : ℕ → Bool) → List String → Gateway → Gateway
unfolding broadcast
withdraw fails [] g = g
withdraw fails (i ∷ is) g = withdraw fails is (withdraw_one fails i g)

-- One round of `_reap_surfaces`.
unfoldable pub reap_surfaces : (fails : ℕ → Bool) → (now ttl : ℕ) → Gateway → Gateway
unfolding withdraw
reap_surfaces fails now ttl g = withdraw fails (expired (now - ttl) g.surfaces) g

abbrev pub replay : Dict String (Spec × ℕ) → List SurfaceMessage
replay d = map (λ (i, (s, seen)). surface_added s) d

-- The start of `_ws_handler`: the client is added and is sent the table.
unfoldable pub connect : (id : ℕ) → Gateway → Gateway
connect id g = record g {
  clients = g.clients ++ record { id = id; received = replay g.surfaces } ∷ [];
}

-- The end of `_ws_handler`.
unfoldable pub disconnect : (id : ℕ) → Gateway → Gateway
disconnect id g = record g { clients = select (λ c. not (c.id == id)) g.clients }

module _ (p : Parsers) where
  abbrev pub validate_icon : (service_id url title icon : String) → Option Bool → Option Validated
  validate_icon i u t c none = none
  validate_icon i u t c (some false) = some (rejected "icon must be a local path or loopback url")
  validate_icon i u t c (some true) = some (spec_of i u t c)

  abbrev pub validate_url : (service_id url title icon : String) → Option Bool → Option Validated
  validate_url i u t c none = none
  validate_url i u t c (some false) = some (rejected "url must be loopback")
  validate_url i u t c (some true) =
      validate_icon i u t c (if c == "" then some true else is_local_asset p c)

  -- `_validate_surface`; `none` where a parser raises.
  unfoldable pub validate_surface : Body → Option Validated
  validate_surface b =
      let i = strip b.service_id in
      let u = strip b.url in
      let t = strip b.title in
      if i == "" || (u == "" || t == "")
      then some (rejected "service_id, url and title required")
      else validate_url i u t (strip b.icon) (is_loopback_url p u)

  abbrev pub register_validated :
      (fails : ℕ → Bool) → (now : ℕ) → Option Validated → Gateway → Option (Gateway × Reply)
  register_validated fails now none g = none
  register_validated fails now (some (rejected reason)) g = some (g, refused reason)
  register_validated fails now (some (valid s)) g = some (store_surface fails now s g, accepted)

  -- `register_surface`
  unfoldable pub register_surface :
      (fails : ℕ → Bool) → (now : ℕ) → Body → Gateway → Option (Gateway × Reply)
  unfolding validate_surface store_surface
  register_surface fails now b g = register_validated fails now (validate_surface b) g
