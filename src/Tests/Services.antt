-- ===== src/Tests/Services.antt =====
-- The registry: one service on this machine.
use nan_itself.Injection.Hub.{declared_timeout, Hub, Registration, registered, register}
use nan_itself.Utils.Loopback.{
  is_loopback_url, Url, Parsers, Headers, is_loopback_host, entry_allowed, entry_allowed-IsLocal,
  IsLocal, HasLocalOrigin,
}
use nan_itself.Base.Dict.{lookup, insert}
use nan_itself.Base.{◌≡◌, refl, ◌⊎◌, true, none, some, [], ◌∷◌, string_eq, nat_eq, ◌↔◌}
use nan_itself.Base.Text.{strip}
use nan_itself.Injection.Client.{inject, ServiceEntry, Network, replied}
use nan_itself.Injection.Registry.{IsSafe, Step, Reach, Reach-IsSafe}

abbrev pub here : Url
here = record { scheme = "http"; hostname = some "localhost"; port = some (some 8901) }

-- Every address is read as one of this machine.
abbrev pub parsers : Parsers
parsers = record { lower = λ s. s; ip_is_loopback = λ s. none; urlsplit = λ s. some here }

abbrev headers : Headers
headers = record { host = some "localhost:8901"; origin = none }

allowed : entry_allowed parsers headers 8901 ≡ some true
unfolding entry_allowed is_loopback_host strip string_eq nat_eq
allowed = refl

entry_allowed-IsLocal_example : (entry_allowed parsers headers 8901 ≡ some true) ↔ (
    ((u : Url) × (some here ≡ some u)
      × IsLocal parsers u.hostname
      × ((u.port ≡ some none) ⊎ (u.port ≡ some (some 8901))))
    × ((headers.origin ≡ none) ⊎ HasLocalOrigin parsers headers 8901))
entry_allowed-IsLocal_example = entry_allowed-IsLocal parsers headers 8901

abbrev hub : Hub
hub = record { services = []; last_reported = []; heartbeat_ttl = 15000; timeout = 2000 }

abbrev registration : Registration
registration = record {
  service_id = " echo ";
  endpoint = "http://localhost:9";
  mode = "inject";
  timeout = none;
}

abbrev echo : ServiceEntry
echo = record {
  service_id = "echo";
  endpoint = "http://localhost:9";
  mode = inject;
  last_seen = 50;
  timeout = none;
}

abbrev served : Hub
served = record hub { services = ("echo", echo) ∷ [] }

registers : register parsers 50 registration hub ≡ some (served, registered)
unfolding register insert is_loopback_host is_loopback_url declared_timeout strip string_eq
registers = refl

Reach-IsSafe_example : IsSafe parsers served.services
Reach-IsSafe_example =
    Reach-IsSafe parsers
      (Reach.next Reach.here 50 (Step.registers registration registered registers)) tt

abbrev network : Network
network entry budget turn = record { started = 60; answer = replied "hello"; ended = 61 }

found : lookup "echo" served.services ≡ some echo
unfolding lookup string_eq
found = refl
