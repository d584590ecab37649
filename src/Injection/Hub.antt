-- ===== src/Injection/Hub.antt =====
-- nan/injection/hub.py: the registry, its eviction and the changes reported to each agent. A set of
-- service ids is a list; times and budgets are in thousandths of a second.
use nan_itself.Base.{
  ℕ, ◌-◌, ◌*◌, String, ◌<>◌, Bool, true, false, not, ◌&&◌, ◌||◌, Option, none, some, List, [], ◌∷◌,
  ◌++◌, map, ltb, leb, if◌then◌else◌, ◌==◌, contains, string_eq, nat_eq, select,
}
use nan_itself.Base.Dict.{Dict, values, lookup, insert, erase}
use nan_itself.Base.Int.{ℤ, pos, negsuc}
use nan_itself.Base.Json.{Json, int, float, null}
use nan_itself.Base.Text.{strip, sorted}
use nan_itself.Turn.Model.{Turn, Injection, DeltaEvent}
use nan_itself.Utils.Loopback.{Parsers, is_loopback_url}
use nan_itself.Injection.Client.{ServiceMode, inject, archive, ServiceEntry, Network, client_inject}

pub record Hub : Type 0 where
  pub services : Dict String ServiceEntry
  pub last_reported : Dict String (List String)
  pub heartbeat_ttl : ℕ
  pub timeout : ℕ

pub data Reply : Type 0 where
  registered unknown acknowledged : Reply
  rejected : (reason : String) → Reply

abbrev pub timeout_min : ℕ
timeout_min = 100

abbrev pub timeout_max : ℕ
timeout_max = 600000

pub data Declared : Type 0 where
  accepted : Option ℕ → Declared
  refused : (reason : String) → Declared

abbrev pub out_of_range : String
out_of_range = "timeout must be a number between 0.1 and 600"

abbrev pub in_budget : ServiceMode → ℕ → Declared
in_budget mode budget =
    if not (leb timeout_min budget && leb budget timeout_max)
    then refused out_of_range
    else elim mode [
      | archive ↦ refused "timeout applies to inject services"
      | inject ↦ accepted (some budget)
    ]

abbrev declared_number : ServiceMode → ℤ → (scale : ℕ) → Declared
declared_number mode (pos n) scale = in_budget mode (n * scale)
declared_number mode (negsuc n) scale = refused out_of_range

-- `_declared_timeout`, where `raw` is what `body.get("timeout")` found.
unfoldable pub declared_timeout : Option Json → ServiceMode → Declared
declared_timeout none mode = accepted none
declared_timeout (some null) mode = accepted none
declared_timeout (some (int z)) mode = declared_number mode z 1000
declared_timeout (some (float z)) mode = declared_number mode z 1
declared_timeout (some _) mode = refused out_of_range

abbrev pub mode_of : String → Option ServiceMode
mode_of raw =
    if raw == "inject" then some inject else if raw == "archive" then some archive else none

-- The body of a request, after `str(...)` and `or`: the three texts, not yet stripped, and what
-- the key `timeout` holds.
pub record Registration : Type 0 where
  pub service_id : String
  pub endpoint : String
  pub mode : String
  pub timeout : Option Json

abbrev pub store : (now : ℕ) → String → String → ServiceMode → Declared → Hub → Hub × Reply
store now i endpoint mode (refused reason) h = (h, rejected reason)
store now i endpoint mode (accepted t) h = (
  record h {
    services =
        insert i
          (record {
            service_id = i;
            endpoint = endpoint;
            mode = mode;
            last_seen = now;
            timeout = t;
          })
          h.services;
  },
  registered,
)

abbrev pub check_mode :
    Parsers → (now : ℕ) → Registration → Option ServiceMode → Hub → Option (Hub × Reply)
check_mode p now r none h = some (h, rejected "mode must be inject or archive")
check_mode p now r (some mode) h = elim (is_loopback_url p (strip r.endpoint)) [
  | none ↦ none
  | some local ↦
      if local
      then some (
          store now (strip r.service_id) (strip r.endpoint) mode (declared_timeout r.timeout mode)
            h)
      else some (h, rejected "endpoint must be loopback")
]

-- `POST /register`. The request fails, with `none`, where reading the endpoint raises.
unfoldable pub register : Parsers → (now : ℕ) → Registration → Hub → Option (Hub × Reply)
register p now r h =
    if strip r.service_id == "" || strip r.endpoint == ""
    then some (h, rejected "service_id and endpoint required")
    else check_mode p now r (mode_of (strip r.mode)) h

-- `POST /heartbeat`
unfoldable pub heartbeat : (now : ℕ) → String → Hub → Hub × Reply
heartbeat now i h = elim (lookup i h.services) [
  | none ↦ (h, unknown)
  | some entry ↦
      (record h { services = insert i (record entry { last_seen = now }) h.services }, acknowledged)
]

-- `POST /unregister`
unfoldable pub unregister : String → Hub → Hub × Reply
unregister i h = (record h { services = erase i h.services }, acknowledged)

-- `forget_agent`
unfoldable pub forget_agent : String → Hub → Hub
forget_agent agent_id h = record h { last_reported = erase agent_id h.last_reported }

-- Its heartbeat stopped beating.
abbrev pub is_stale : (ttl now : ℕ) → ServiceEntry → Bool
is_stale ttl now entry = ltb ttl (now - entry.last_seen)

unfoldable pub drop_stale : (ttl now : ℕ) → Dict String ServiceEntry → Dict String ServiceEntry
drop_stale ttl now [] = []
drop_stale ttl now ((i, entry) ∷ d) =
    let rest = drop_stale ttl now d in if is_stale ttl now entry then rest else (i, entry) ∷ rest

-- `_evict_stale_services`
unfoldable pub evict_stale_services : (now : ℕ) → Hub → Hub
evict_stale_services now h = record h { services = drop_stale h.heartbeat_ttl now h.services }

-- `_live_services`
abbrev pub live_services : (now : ℕ) → Hub → Hub × List ServiceEntry
live_services now h = let h' = evict_stale_services now h in (h', values h'.services)

-- `xs - ys` of sets
abbrev pub minus : List String → List String → List String
minus xs ys = select (λ i. not (contains ys i)) xs

abbrev pub service_event : (sign suffix : String) → String → DeltaEvent
service_event sign suffix i = record { section = "service"; line = sign <> (i <> suffix) }

abbrev pub changes : (known live : List String) → List DeltaEvent
changes known live =
    map (service_event "+" " online") (sorted (minus live known))
    ++ map (service_event "-" " offline") (sorted (minus known live))

abbrev pub known_of : Option (List String) → List String
known_of none = []
known_of (some ids) = ids

-- No events where no services were registered yet, and else what changed.
abbrev pub told : (prev : Option (List String)) (live : List String) → List DeltaEvent
told none [] = []
told none (i ∷ is) = changes [] (i ∷ is)
told (some known) live = changes known live

-- `_service_delta`
unfoldable pub service_delta :
    (agent_id : String) → (live : List String) → Hub → Hub × List DeltaEvent
service_delta agent_id live h = (
  record h { last_reported = insert agent_id live h.last_reported },
  told (lookup agent_id h.last_reported) live,
)

abbrev pub is_inject : ServiceEntry → Bool
is_inject entry = elim entry.mode [ inject ↦ true | archive ↦ false ]

abbrev pub ids_of : List ServiceEntry → List String
ids_of = map (λ (e : ServiceEntry). e.service_id)

-- `InjectionHub.inject`
unfoldable pub hub_inject :
    Network → (now : ℕ) → Turn → Hub → Hub × (List Injection × List DeltaEvent)
hub_inject network now turn h =
    let (h', live) = live_services now h in
    let (h'', events) = service_delta turn.agent_id (ids_of live) h' in
    (h'', (client_inject network h''.timeout turn (select is_inject live), events))

-- `InjectionHub.archive`: the services that the completed turn is sent to.
unfoldable pub hub_archive : (now : ℕ) → Hub → Hub × List ServiceEntry
hub_archive now h =
    let (h', live) = live_services now h in (h', select (λ e. not (is_inject e)) live)
