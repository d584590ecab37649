-- ===== src/Injection/Registry.antt =====
-- nan/injection/hub.py: what the requests to the registry do, and what holds of every entry.
use nan_itself.Base.{
  ℕ, ◌*◌, ◌≤◌, String, ◌≡◌, refl, sym, ◌≢◌, ◌⊎◌, inl, inr, true, false, ◌||◌, Option, none, some,
  [], ◌∷◌, arith, Bool-cases, Option-cases, ◌==◌, string_eq, nat_eq, subst,
}
use nan_itself.Base.Dict.{Dict, lookup, insert, erase}
use nan_itself.Base.Int.{pos}
use nan_itself.Base.Json.{Json, int, float, null}
use nan_itself.Base.Text.{strip}
use nan_itself.Utils.Loopback.{Parsers, is_loopback_url}
use nan_itself.Injection.Client.{ServiceMode, inject, ServiceEntry}
use nan_itself.Injection.Hub.{
  mode_of, in_budget, store, check_mode, Hub, Reply, Declared, accepted, refused, declared_timeout,
  registered, Registration, register, heartbeat, unregister, drop_stale, evict_stale_services,
}

-- A budget that a service may have: none of its own, or one from 0.1 to 600 seconds, and then it
-- is an inject service.

abbrev pub HasBudget : ServiceMode → Option ℕ → Type 0
HasBudget mode none = Unit
HasBudget mode (some t) = (100 ≤ t) × (t ≤ 600000) × (mode ≡ inject)

in_budget-HasBudget :
    (mode : ServiceMode) (budget : ℕ) (t : Option ℕ)
    → in_budget mode budget ≡ accepted t
    → HasBudget mode t
in_budget-HasBudget mode budget none h = tt
in_budget-HasBudget mode budget (some t) h = ground arith

declared-HasBudget :
    (raw : Option Json) (mode : ServiceMode) (t : Option ℕ)
    → declared_timeout raw mode ≡ accepted t
    → HasBudget mode t
unfolding declared_timeout
declared-HasBudget raw mode none h = tt
declared-HasBudget none mode (some t) h = absurd (ground arith)
declared-HasBudget (some null) mode (some t) h = absurd (ground arith)
declared-HasBudget (some (int (pos n))) mode (some t) h =
    in_budget-HasBudget mode (n * 1000) (some t) h
declared-HasBudget (some (float (pos n))) mode (some t) h =
    in_budget-HasBudget mode (n * 1) (some t) h
declared-HasBudget (some _) mode (some t) h = absurd (ground arith)

module _ (p : Parsers) where
  pub record IsSafeEntry (i : String) (e : ServiceEntry) : Type 0 where
    pub named : e.service_id ≡ i
    pub local : is_loopback_url p e.endpoint ≡ some true
    pub budget : HasBudget e.mode e.timeout

  -- Every entry stands under its own id, is reached on the loopback only, and has a fair budget.
  abbrev pub IsSafe : Dict String ServiceEntry → Type 0
  IsSafe [] = Unit
  IsSafe ((i, e) ∷ d) = IsSafeEntry i e × IsSafe d

  insert-IsSafe :
      (i : String) (e : ServiceEntry) (d : Dict String ServiceEntry)
      → IsSafeEntry i e
      → IsSafe d
      → IsSafe (insert i e d)
  unfolding insert
  insert-IsSafe i e [] s _ = (s, tt)
  insert-IsSafe i e ((j, f) ∷ d) s (t, v) = ground (arith, insert-IsSafe i e d s v)

  erase-IsSafe : (i : String) (d : Dict String ServiceEntry) → IsSafe d → IsSafe (erase i d)
  unfolding erase
  erase-IsSafe i [] _ = tt
  erase-IsSafe i ((j, f) ∷ d) (t, v) = ground (arith, erase-IsSafe i d v)

  drop_stale-IsSafe :
      (ttl now : ℕ) (d : Dict String ServiceEntry) → IsSafe d → IsSafe (drop_stale ttl now d)
  unfolding drop_stale
  drop_stale-IsSafe ttl now [] _ = tt
  drop_stale-IsSafe ttl now ((j, f) ∷ d) (t, v) = ground (arith, drop_stale-IsSafe ttl now d v)

  lookup-IsSafe :
      (i : String) (d : Dict String ServiceEntry) (e : ServiceEntry)
      → IsSafe d
      → lookup i d ≡ some e
      → IsSafeEntry i e
  unfolding lookup
  lookup-IsSafe i [] e v h = absurd (ground arith)
  lookup-IsSafe i ((j, f) ∷ d) e (t, v) h = ground (arith, lookup-IsSafe i d e v)

  -- The hub as it was, with the one entry that an accepted registration writes.
  pub record IsRegistered (now : ℕ) (r : Registration) (h h' : Hub) (e : ServiceEntry)
      : Type 0 where
    pub id_given : strip r.service_id ≢ ""
    pub endpoint_given : strip r.endpoint ≢ ""
    pub written : h' ≡ record h { services = insert (strip r.service_id) e h.services }
    pub safe : IsSafeEntry (strip r.service_id) e
    pub endpoint : e.endpoint ≡ strip r.endpoint
    pub seen : e.last_seen ≡ now
    pub timeout : declared_timeout r.timeout e.mode ≡ accepted e.timeout

  abbrev pub Outcome : (now : ℕ) (r : Registration) (h h' : Hub) (reply : Reply) → Type 0
  Outcome now r h h' reply =
      ((reply ≡ registered) × (e : ServiceEntry) × IsRegistered now r h h' e)
      ⊎ ((reply ≢ registered) × (h' ≡ h))

  store_lem :
      (now : ℕ) (r : Registration) (h h' : Hub) (reply : Reply) (mode : ServiceMode) (d : Declared)
      → d ≡ declared_timeout r.timeout mode
      → strip r.service_id ≢ ""
      → strip r.endpoint ≢ ""
      → is_loopback_url p (strip r.endpoint) ≡ some true
      → store now (strip r.service_id) (strip r.endpoint) mode d h ≡ (h', reply)
      → Outcome now r h h' reply
  store_lem now r h h' reply mode (refused reason) same given address local e = inr (cc, cc)
  store_lem now r h h' reply mode (accepted t) same given address local e = inl (
    cc,
    record {
      service_id = strip r.service_id;
      endpoint = strip r.endpoint;
      mode = mode;
      last_seen = now;
      timeout = t;
    },
    record {
      id_given = given;
      endpoint_given = address;
      written = cc;
      safe = record {
        named = refl;
        local = local;
        budget = declared-HasBudget r.timeout mode t (sym same);
      };
      endpoint = refl;
      seen = refl;
      timeout = sym same;
    },
  )

  check_mode_lem :
      (now : ℕ) (r : Registration) (h h' : Hub) (reply : Reply) (mode : Option ServiceMode)
      → strip r.service_id ≢ ""
      → strip r.endpoint ≢ ""
      → check_mode p now r mode h ≡ some (h', reply)
      → Outcome now r h h' reply
  check_mode_lem now r h h' reply none given address e = inr (ground arith, ground arith)
  check_mode_lem now r h h' reply (some mode) given address e =
      elim (Option-cases (is_loopback_url p (strip r.endpoint))) [
        | inl raises ↦ absurd (ground arith)
        | inr (true, local) ↦
            store_lem now r h h' reply mode (declared_timeout r.timeout mode) refl given address
              local (ground arith)
        | inr (false, foreign) ↦ inr (ground arith, ground arith)
      ]

  -- What a registration did, whatever its reply: an accepted one passed every check and wrote
  -- exactly the entry of its id, which is safe and was seen just now; any other reply left the hub
  -- as it was.
  pub register_lem :
      (now : ℕ) (r : Registration) (h h' : Hub) (reply : Reply)
      → register p now r h ≡ some (h', reply)
      → Outcome now r h h' reply
  unfolding register
  register_lem now r h h' reply e =
      elim (Bool-cases (strip r.service_id == "" || strip r.endpoint == "")) [
        | inl blank ↦ inr (ground arith, ground arith)
        | inr given ↦
            check_mode_lem now r h h' reply (mode_of (strip r.mode)) (ground arith) (ground arith)
              (rw given at e)
      ]

  -- The requests to the registry, and the eviction at a turn's boundary.
  pub data Step (now : ℕ) (h : Hub) : Hub → Type 0 where
    registers :
        {h' : Hub} (r : Registration) (reply : Reply)
        → register p now r h ≡ some (h', reply)
        → Step now h h'
    beats : (i : String) → Step now h (heartbeat now i h).0
    leaves : (i : String) → Step now h (unregister i h).0
    evicts : Step now h (evict_stale_services now h)

  -- What comes of a hub by steps at any times.
  pub data Reach (h : Hub) : Hub → Type 0 where
    here : Reach h h
    next : {h' h'' : Hub} → Reach h h' → (now : ℕ) → Step now h' h'' → Reach h h''

  heartbeat-IsSafe :
      (now : ℕ) (i : String) (h : Hub) → IsSafe h.services → IsSafe (heartbeat now i h).0.services
  unfolding heartbeat
  heartbeat-IsSafe now i h v = elim (Option-cases (lookup i h.services)) [
    | inl absent ↦
        let same : (heartbeat now i h).0.services ≡ h.services = ground arith in
        subst IsSafe (sym same) v
    | inr (e, found) ↦
        let old = lookup-IsSafe i h.services e v found in
        let beat : ServiceEntry = record e { last_seen = now } in
        let same : (heartbeat now i h).0.services ≡ insert i beat h.services = ground arith in
        subst IsSafe (sym same) (
          insert-IsSafe i beat h.services
            (record { named = old.named; local = old.local; budget = old.budget }) v)
  ]

  Step-IsSafe : {now : ℕ} {h h' : Hub} → Step now h h' → IsSafe h.services → IsSafe h'.services
  unfolding unregister evict_stale_services
  Step-IsSafe {now} {h} {h'} (registers r reply e) v = elim (register_lem now r h h' reply e) [
    | inl (ok, entry, done) ↦
        rw done.written (insert-IsSafe (strip r.service_id) entry h.services done.safe v)
    | inr (not_ok, same) ↦ rw same v
  ]
  Step-IsSafe {now} {h} (beats i) v = heartbeat-IsSafe now i h v
  Step-IsSafe {now} {h} (leaves i) v = erase-IsSafe i h.services v
  Step-IsSafe {now} {h} evicts v = drop_stale-IsSafe h.heartbeat_ttl now h.services v

  -- Whatever requests arrive, in whatever order and at whatever times, every entry of the registry
  -- stands under its own id, has an endpoint on the loopback, and a read budget that is fair: none
  -- of its own, or one from 0.1 to 600 seconds, which only an inject service has.
  pub Reach-IsSafe : {h h' : Hub} → Reach h h' → IsSafe h.services → IsSafe h'.services
  Reach-IsSafe here v = v
  Reach-IsSafe (next r now step) v = Step-IsSafe step (Reach-IsSafe r v)
