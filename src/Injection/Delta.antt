-- ===== src/Injection/Delta.antt =====
-- nan/injection/hub.py, `_service_delta`: what an agent is told about the services.
use nan_itself.Base.{String, Bool, not, ◌&&◌, ◌||◌, List, ◌++◌, map, contains, string_eq, nat_eq}
use nan_itself.Base.Text.{sorted}
use nan_itself.Turn.Model.{DeltaEvent}
use nan_itself.Injection.Hub.{Hub, minus, service_event}

-- The services that a report says came, and those that it says went.
pub record Report : Type 0 where
  pub came : List String
  pub went : List String

abbrev pub report_of : (known live : List String) → Report
report_of known live = record { came = sorted (minus live known); went = sorted (minus known live) }

-- The lines of a report, in its order.
abbrev pub report_lines : Report → List DeltaEvent
report_lines r =
    map (service_event "+" " online") r.came ++ map (service_event "-" " offline") r.went

-- What an agent that knew of some services knows after a report.
abbrev pub is_known_after : (known : List String) → Report → String → Bool
is_known_after known r i = (contains known i && not (contains r.went i)) || contains r.came i
