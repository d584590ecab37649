-- ===== src/Tests/Gateway.antt =====
-- The gateway at concrete requests.
use nan_itself.Base.{
  ℕ, ◌≤◌, String, ◌≡◌, refl, true, false, none, some, List, [], ◌∷◌, arith, contains, string_eq,
  nat_eq, length,
}
use nan_itself.Base.Dict.{lookup}
use nan_itself.Base.Text.{strip}
use nan_itself.Base.Json.{str, obj, Fields, end, field}
use nan_itself.Utils.Loopback.{is_loopback_url, is_loopback_host}
use nan_itself.Agent.Tree.Keep.{views}
use nan_itself.Gateway.Mids.{accept_mid, accept_mids, fresh, accept_mid-bound, accept_mid-once}
use nan_itself.Gateway.Surfaces.{
  Gateway, Body, Spec, connect, store_surface, register_surface, reap_surfaces, validate_surface,
  accepted,
}
use nan_itself.Gateway.View.{IsSynced, here, next, connects, registers, reaps, Reach-IsSynced}
use nan_itself.Gateway.Route.{running, Reading, Session, route_messages}
use nan_itself.Gateway.Inbox.{Shows, Leaves, lines, route_messages-Leaves}
use nan_itself.Tests.Services.{parsers}
use nan_itself.Tests.Tree.{alone}

abbrev cached : List String
cached = "a" ∷ "b" ∷ []

accept_mid-bound_example : length (accept_mid 2 (some "c") cached).0 ≤ 2
accept_mid-bound_example = accept_mid-bound 2 (some "c") cached (omega arith)

few : fresh (some "d" ∷ []) (accept_mids 2 (some "d" ∷ []) (accept_mid 2 (some "c") cached).0).1 ≤ 1
unfolding accept_mid accept_mids string_eq
few = omega arith

unseen : contains cached "c" ≡ false
unfolding string_eq
unseen = refl

accept_mid-once_example :
    let (seen', taken) = accept_mid 2 (some "c") cached in
    let (seen'', others) = accept_mids 2 (some "d" ∷ []) seen' in
    (taken ≡ true) × (accept_mid 2 (some "c") seen'' ≡ (seen'', false))
accept_mid-once_example =
    accept_mid-once 2 "c" (some "d" ∷ []) cached (omega arith) (omega arith) unseen few

abbrev empty : Gateway
empty = record { clients = []; surfaces = [] }

empty-IsSynced : IsSynced parsers empty
empty-IsSynced = record { unique = tt; keyed = tt; local = tt; sees = tt; sent = tt }

abbrev panel : Body
panel = record { service_id = "net"; url = "http://localhost:1"; title = "Net"; icon = "" }

abbrev spec : Spec
spec = record { service_id = "net"; url = "http://localhost:1"; title = "Net"; icon = none }

abbrev joined : Gateway
joined = connect 1 empty

abbrev shown : Gateway
shown = store_surface (λ n. false) 5 spec joined

registration : register_surface parsers (λ n. false) 5 panel joined ≡ some (shown, accepted)
unfolding register_surface validate_surface is_loopback_url strip string_eq is_loopback_host
registration = refl

Reach-IsSynced_example : IsSynced parsers (reap_surfaces (λ n. false) 60 20 shown)
Reach-IsSynced_example =
    Reach-IsSynced parsers
      (next (next (next here (connects 1)) (registers (λ n. false) 5 panel accepted registration))
        (reaps (λ n. false) 60 20))
      empty-IsSynced

-- Two inputs and a repetition of the first.
abbrev typed : (text mid : String) → Fields
typed text mid = field "t" (str "input") (field "text" (str text) (field "mid" (str mid) end))

abbrev reading : Reading
reading = record { loads = λ raw. some (obj (typed raw raw)); shown = λ j. "" }

abbrev session : Session
session = record {
  seen = [];
  core = record { state = running; root = some "root"; agents = alone; user_inputs = [] };
}

session_Shows : Shows "root" [] [] session.core
unfolding views lookup string_eq
session_Shows = record { is_on = refl; root_is = refl; inbox = refl; logged = refl }

abbrev raws : List (ℕ × String)
raws = (1, "hi") ∷ (2, "there") ∷ (3, "hi") ∷ []

route_messages-Leaves_example :
    Leaves reading 8 "root" (lines reading raws) [] [] [] (route_messages reading 8 raws session)
route_messages-Leaves_example =
    route_messages-Leaves reading 8 "root" raws [] [] session session_Shows
