-- ===== src/Gateway/View.antt =====
-- nan/gateway.py: what the connected desktops see of the surface table, under any course of requests.
use nan_itself.Base.Text.{strip}
use nan_itself.Base.{
  ℕ, ◌-◌, String, ◌≡◌, refl, sym, ap, ◌∙◌, subst, inl, inr, Bool, true, false, not, ◌||◌, Option,
  none, some, List, [], ◌∷◌, ◌++◌, arith, if◌then◌else◌, Bool-cases, ◌==◌, string_eq, nat_eq,
  select, All, All-append,
}
use nan_itself.Base.Dict.{
  Dict, lookup, insert, erase, lookup-insert, lookup-erase, All-insert, All-erase, Unique,
  insert-Unique, erase-Unique, lookup-nil, lookup-cons,
}
use nan_itself.Utils.Loopback.{Parsers, is_loopback_url, is_local_asset}
use nan_itself.Gateway.Surfaces.{
  Body, Spec, Validated, valid, rejected, SurfaceMessage, surface_added, surface_removed, Client,
  Gateway, Reply, same_spec, send_to, broadcast, is_unchanged, store_surface, unregister_surface,
  expired, withdraw, reap_surfaces, replay, connect, disconnect, validate_icon, validate_url,
  validate_surface, register_validated, register_surface, withdraw_one, unregister_found,
}

-- One message, at the desktop.
abbrev apply_message : SurfaceMessage → Dict String Spec → Dict String Spec
apply_message (surface_added s) d = insert s.service_id s d
apply_message (surface_removed i) d = erase i d

-- What a desktop shows after its messages.
abbrev pub shown_after : List SurfaceMessage → Dict String Spec → Dict String Spec
shown_after [] d = d
shown_after (m ∷ ms) d = shown_after ms (apply_message m d)

abbrev pub spec_at : Option (Spec × ℕ) → Option Spec
spec_at none = none
spec_at (some (s, seen)) = some s

-- A desktop shows the surfaces of the table, and no other.
abbrev pub Sees : Dict String (Spec × ℕ) → Client → Type 0
Sees surfaces c = (j : String) → lookup j (shown_after c.received []) ≡ spec_at (lookup j surfaces)

abbrev pub IsKeyed : Dict String (Spec × ℕ) → Type 0
IsKeyed d = All (λ (i, (s, seen)). s.service_id ≡ i) d

-- A surface that a desktop may show: named, on this machine, with an icon from this machine.
module _ (p : Parsers) where
  pub record IsLocalSpec (s : Spec) : Type 0 where
    pub url : is_loopback_url p s.url ≡ some true
    pub icon : (c : String) → s.icon ≡ some c → is_local_asset p c ≡ some true

  abbrev pub AllowsMessage : SurfaceMessage → Type 0
  AllowsMessage (surface_added s) = IsLocalSpec s
  AllowsMessage (surface_removed i) = Unit

  pub record IsSynced (g : Gateway) : Type 0 where
    pub unique : Unique g.surfaces
    pub keyed : IsKeyed g.surfaces
    pub local : All (λ (i, (s, seen)). IsLocalSpec s) g.surfaces
    pub sees : All (Sees g.surfaces) g.clients
    pub sent : All (λ (c : Client). All AllowsMessage c.received) g.clients

shown_after-append :
    (ms : List SurfaceMessage) (m : SurfaceMessage) (d : Dict String Spec)
    → shown_after (ms ++ m ∷ []) d ≡ apply_message m (shown_after ms d)
shown_after-append [] m d = refl
shown_after-append (x ∷ ms) m d = shown_after-append ms m (apply_message x d)

All-broadcast :
    (P Q : Client → Type 0) (fails : ℕ → Bool) (m : SurfaceMessage) (cs : List Client)
    → ((c : Client) → P c → Q (send_to m c))
    → All P cs
    → All Q (broadcast fails m cs)
unfolding broadcast
All-broadcast P Q fails m [] h ps = tt
All-broadcast P Q fails m (c ∷ cs) h (p, ps) =
    ground (arith, h c p, All-broadcast P Q fails m cs h ps)

All-map :
    (P Q : Client → Type 0) (cs : List Client) → ((c : Client) → P c → Q c) → All P cs → All Q cs
All-map P Q [] h ps = tt
All-map P Q (c ∷ cs) h (p, ps) = (h c p, All-map P Q cs h ps)

All-select_of :
    (P : Client → Type 0) (q : Client → Bool) (cs : List Client) → All P cs → All P (select q cs)
All-select_of P q [] ps = tt
All-select_of P q (c ∷ cs) (p, ps) = ground (arith, All-select_of P q cs ps)

-- A message and the entry that it stands for, at one desktop.
added-Sees :
    (s : Spec) (now : ℕ) (d : Dict String (Spec × ℕ)) (c : Client)
    → Sees d c
    → Sees (insert s.service_id (s, now) d) (send_to (surface_added s) c)
added-Sees s now d c h j =
    ap (lookup j) (shown_after-append c.received (surface_added s) [])
    ∙ lookup-insert j s.service_id s (shown_after c.received [])
    ∙ ground (arith, h j, lookup-insert j s.service_id (s, now) d)

removed-Sees :
    (i : String) (d : Dict String (Spec × ℕ)) (c : Client)
    → Sees d c
    → Sees (erase i d) (send_to (surface_removed i) c)
removed-Sees i d c h j =
    ap (lookup j) (shown_after-append c.received (surface_removed i) [])
    ∙ lookup-erase j i (shown_after c.received [])
    ∙ ground (arith, h j, lookup-erase j i d)

-- The table, as it is replayed.
replay-shown :
    (d : Dict String (Spec × ℕ)) (start : Dict String Spec) (j : String)
    → Unique d
    → IsKeyed d
    → lookup j (shown_after (replay d) start)
      ≡ elim (spec_at (lookup j d)) [ none ↦ lookup j start | some s ↦ some s ]
replay-shown [] start j u k = ground (arith, lookup-nil {V = Spec × ℕ} j)
replay-shown ((i, (s, seen)) ∷ d) start j (fresh, u) (e, k) =
    replay-shown d (insert s.service_id s start) j u k
    ∙ ground (arith, e, fresh, lookup-insert j s.service_id s start, lookup-cons j i (s, seen) d)

same_spec-eq : (a b : Spec) → same_spec a b ≡ true → a ≡ b
unfolding same_spec
same_spec-eq a b h = ground arith

from_nothing : (j : String) (o : Option Spec) → elim o [ none ↦ lookup j [] | some s ↦ some s ] ≡ o
from_nothing j none = lookup-nil j
from_nothing j (some s) = refl

-- An entry that is written anew with the spec that it has.
refreshed :
    (j : String) (s : Spec) (now : ℕ) (d : Dict String (Spec × ℕ)) (o : Option (Spec × ℕ))
    → lookup s.service_id d ≡ o
    → is_unchanged o s ≡ true
    → spec_at (lookup j d) ≡ spec_at (lookup j (insert s.service_id (s, now) d))
refreshed j s now d none e h = cc
refreshed j s now d (some (old, seen)) e h =
    ground (arith, same_spec-eq old s h, lookup-insert j s.service_id (s, now) d)

module _ (p : Parsers) where
  validate_icon-IsLocalSpec :
      (i u t c : String) (o : Option Bool) (s : Spec)
      → is_loopback_url p u ≡ some true
      → o ≡ (if c == "" then some true else is_local_asset p c)
      → validate_icon p i u t c o ≡ some (valid s)
      → IsLocalSpec p s
  validate_icon-IsLocalSpec i u t c none s local e h = cc
  validate_icon-IsLocalSpec i u t c (some false) s local e h = cc
  validate_icon-IsLocalSpec i u t c (some true) s local e h = record {
    url = ground arith;
    icon = λ a given. ground arith;
  }

  validate_url-IsLocalSpec :
      (i u t c : String) (o : Option Bool) (s : Spec)
      → o ≡ is_loopback_url p u
      → validate_url p i u t c o ≡ some (valid s)
      → IsLocalSpec p s
  validate_url-IsLocalSpec i u t c none s e h = cc
  validate_url-IsLocalSpec i u t c (some false) s e h = cc
  validate_url-IsLocalSpec i u t c (some true) s e h =
      validate_icon-IsLocalSpec i u t c _ s (sym e) refl h

  -- What a validated body is.
  validate_surface-IsLocalSpec :
      (b : Body) (s : Spec) → validate_surface p b ≡ some (valid s) → IsLocalSpec p s
  unfolding validate_surface
  validate_surface-IsLocalSpec b s h =
      elim (Bool-cases (strip b.service_id == "" || (strip b.url == "" || strip b.title == ""))) [
        | inl blank ↦ let h' = rw blank at h in cc
        | inr given ↦
            validate_url-IsLocalSpec (strip b.service_id) (strip b.url) (strip b.title)
              (strip b.icon) (is_loopback_url p (strip b.url)) s refl (rw given at h)
      ]

  store_surface-IsSynced :
      (fails : ℕ → Bool) (now : ℕ) (s : Spec) (g : Gateway)
      → IsLocalSpec p s
      → IsSynced p g
      → IsSynced p (store_surface fails now s g)
  unfolding store_surface
  store_surface-IsSynced fails now s g local v = record {
    unique = insert-Unique s.service_id (s, now) g.surfaces v.unique;
    keyed = All-insert _ s.service_id (s, now) g.surfaces refl v.keyed;
    local = All-insert _ s.service_id (s, now) g.surfaces local v.local;
    sees = elim (Bool-cases (is_unchanged (lookup s.service_id g.surfaces) s)) [
      | inl same ↦ rw same (
          All-map (Sees g.surfaces) _ g.clients
            (λ c h j. h j ∙ refreshed j s now g.surfaces (lookup s.service_id g.surfaces) refl same)
            v.sees)
      | inr changed ↦ rw changed (
          All-broadcast (Sees g.surfaces) _ fails (surface_added s) g.clients
            (added-Sees s now g.surfaces) v.sees)
    ];
    sent = elim (Bool-cases (is_unchanged (lookup s.service_id g.surfaces) s)) [
      | inl same ↦ rw same v.sent
      | inr changed ↦ rw changed (
          All-broadcast _ _ fails (surface_added s) g.clients
            (λ c sent.
              All-append (AllowsMessage p) c.received (surface_added s ∷ []) sent (local, tt))
            v.sent)
    ];
  }

  withdraw_one-IsSynced :
      (fails : ℕ → Bool) (i : String) (g : Gateway)
      → IsSynced p g
      → IsSynced p (withdraw_one fails i g)
  withdraw_one-IsSynced fails i g v = record {
    unique = erase-Unique i g.surfaces v.unique;
    keyed = All-erase _ i g.surfaces v.keyed;
    local = All-erase _ i g.surfaces v.local;
    sees =
        All-broadcast (Sees g.surfaces) (Sees (erase i g.surfaces)) fails (surface_removed i)
          g.clients (removed-Sees i g.surfaces) v.sees;
    sent =
        All-broadcast _ _ fails (surface_removed i) g.clients
          (λ c sent. All-append (AllowsMessage p) c.received (surface_removed i ∷ []) sent (tt, tt))
          v.sent;
  }

  unregister_found-IsSynced :
      (fails : ℕ → Bool) (i : String) (o : Option (Spec × ℕ)) (g : Gateway)
      → IsSynced p g
      → IsSynced p (unregister_found fails i o g).0
  unregister_found-IsSynced fails i none g v = v
  unregister_found-IsSynced fails i (some e) g v = withdraw_one-IsSynced fails i g v

  withdraw-IsSynced :
      (fails : ℕ → Bool) (is : List String) (g : Gateway)
      → IsSynced p g
      → IsSynced p (withdraw fails is g)
  unfolding withdraw
  withdraw-IsSynced fails [] g v = v
  withdraw-IsSynced fails (i ∷ is) g v =
      withdraw-IsSynced fails is _ (withdraw_one-IsSynced fails i g v)

  -- The requests to the gateway, connections, and the rounds of the reaper.
  pub data Step (g : Gateway) : Gateway → Type 0 where
    registers :
        {g' : Gateway} (fails : ℕ → Bool) (now : ℕ) (b : Body) (reply : Reply)
        → register_surface p fails now b g ≡ some (g', reply)
        → Step g g'
    unregisters : (fails : ℕ → Bool) (i : String) → Step g (unregister_surface fails i g).0
    reaps : (fails : ℕ → Bool) (now ttl : ℕ) → Step g (reap_surfaces fails now ttl g)
    connects : (id : ℕ) → Step g (connect id g)
    disconnects : (id : ℕ) → Step g (disconnect id g)

  pub data Reach (g : Gateway) : Gateway → Type 0 where
    here : Reach g g
    next : {g' g'' : Gateway} → Reach g g' → Step g' g'' → Reach g g''

  registered-IsSynced :
      (fails : ℕ → Bool) (now : ℕ) (b : Body) (g g' : Gateway) (reply : Reply)
      (o : Option Validated)
      → ((s : Spec) → o ≡ some (valid s) → IsLocalSpec p s)
      → register_validated p fails now o g ≡ some (g', reply)
      → IsSynced p g
      → IsSynced p g'
  registered-IsSynced fails now b g g' reply none local e v = cc
  registered-IsSynced fails now b g g' reply (some (rejected reason)) local e v =
      let same : g ≡ g' = cc in subst (IsSynced p) same v
  registered-IsSynced fails now b g g' reply (some (valid s)) local e v =
      let same : store_surface fails now s g ≡ g' = cc in
      subst (IsSynced p) same (store_surface-IsSynced fails now s g (local s refl) v)

  replay-Allows :
      (d : Dict String (Spec × ℕ))
      → All (λ (i, (s, seen)). IsLocalSpec p s) d
      → All (AllowsMessage p) (replay d)
  replay-Allows [] h = tt
  replay-Allows ((i, (s, seen)) ∷ d) (h, hs) = (h, replay-Allows d hs)

  Step-IsSynced : {g g' : Gateway} → Step g g' → IsSynced p g → IsSynced p g'
  unfolding register_surface unregister_surface reap_surfaces connect disconnect
  Step-IsSynced {g} {g'} (registers fails now b reply e) v =
      registered-IsSynced fails now b g g' reply (validate_surface p b)
        (validate_surface-IsLocalSpec b) e v
  Step-IsSynced {g} (unregisters fails i) v =
      unregister_found-IsSynced fails i (lookup i g.surfaces) g v
  Step-IsSynced {g} (reaps fails now ttl) v =
      withdraw-IsSynced fails (expired (now - ttl) g.surfaces) g v
  Step-IsSynced {g} (connects id) v = record {
    unique = v.unique;
    keyed = v.keyed;
    local = v.local;
    sees = All-append (Sees g.surfaces) g.clients _ v.sees (
      (λ j.
          replay-shown g.surfaces [] j v.unique v.keyed
          ∙ from_nothing j (spec_at (lookup j g.surfaces))),
      tt,
    );
    sent = All-append _ g.clients _ v.sent (replay-Allows g.surfaces v.local, tt);
  }
  Step-IsSynced {g} (disconnects id) v = record {
    unique = v.unique;
    keyed = v.keyed;
    local = v.local;
    sees = All-select_of (Sees g.surfaces) (λ c. not (c.id == id)) g.clients v.sees;
    sent = All-select_of _ (λ c. not (c.id == id)) g.clients v.sent;
  }

  -- Whatever requests, connections, failed sends and rounds of the reaper come, in whatever order and at
  -- whatever times: every connected desktop shows exactly the surfaces of the table, each surface stands
  -- once and under its own id, and no desktop was ever sent one whose address or icon is not local.
  pub Reach-IsSynced : {g g' : Gateway} → Reach g g' → IsSynced p g → IsSynced p g'
  Reach-IsSynced here v = v
  Reach-IsSynced (next r step) v = Step-IsSynced step (Reach-IsSynced r v)
