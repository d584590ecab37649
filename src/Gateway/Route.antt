-- ===== src/Gateway/Route.antt =====
-- nan/gateway.py: `_route_message` and `_accept_input`, with the callbacks that nan/app.py wires them to:
-- `_on_input`, `_on_pause` and `_state_provider`. `json.loads`, and what `str` shows of a value that is
-- neither a text nor null, are arguments.
use nan_itself.Base.{
  ℕ, zero, String, Bool, true, false, not, Option, none, some, List, [], ◌∷◌, ◌++◌, if◌then◌else◌,
  ◌==◌, string_eq, nat_eq,
}
use nan_itself.Base.Dict.{lookup}
use nan_itself.Base.Text.{strip}
use nan_itself.Base.Json.{Json, null, bool, int, float, str, arr, obj, nil, Fields, end, field, get}
use nan_itself.Base.Int.{pos}
use nan_itself.Turn.Model.{from_user}
use nan_itself.Agent.State.{deliver}
use nan_itself.Agent.Tree.{Agents, change, pause_tree, resume_tree}
use nan_itself.Gateway.Mids.{accept_mid}

pub data CoreState : Type 0 where
  init : CoreState
  running : CoreState
  stopping : CoreState
  stopped : CoreState

abbrev pub is_running : CoreState → Bool
is_running running = true
is_running _ = false

-- Of `Core`: its state, the root's id, the agents, and the `user_input` events that it emitted.
pub record Core : Type 0 where
  pub state : CoreState
  pub root : Option String
  pub agents : Agents
  pub user_inputs : List Fields

abbrev pub input_event : (text : String) → (mid : Option String) → Fields
input_event text none = field "text" (str text) end
input_event text (some m) =
    field "text" (str text) (if m == "" then end else field "mid" (str m) end)

abbrev pub input_to : (now : ℕ) → (text : String) → Option String → Option String → Core → Core
input_to now text mid none c = c
input_to now text mid (some i) c = if not (is_running c.state) then c else record c {
  agents = change (deliver (from_user now text)) i c.agents;
  user_inputs = c.user_inputs ++ input_event text mid ∷ [];
}

-- `_on_input`
unfoldable pub on_input : (now : ℕ) → (text : String) → (mid : Option String) → Core → Core
unfolding deliver
on_input now text mid c = input_to now text mid c.root c

abbrev pub pause_to : (paused : Bool) → Option String → Core → Core
pause_to paused none c = c
pause_to paused (some i) c =
    if not (is_running c.state)
    then c
    else record c { agents = if paused then pause_tree i c.agents else resume_tree i c.agents }

-- `_on_pause`
unfoldable pub on_pause : (paused : Bool) → Core → Core
unfolding pause_tree resume_tree
on_pause paused c = pause_to paused c.root c

abbrev pub root_paused : Agents → Option String → Bool
root_paused s none = false
root_paused s (some i) = elim (lookup i s) [ none ↦ false | some a ↦ a.paused ]

abbrev pub text_or_null : Option String → Json
text_or_null none = null
text_or_null (some s) = str s

-- `_state_provider`
unfoldable pub state_provider : (boot_id : String) → (model : Option String) → Core → Fields
state_provider boot_id model c =
    field "boot" (str boot_id)
      (field "model" (text_or_null model) (field "paused" (bool (root_paused c.agents c.root)) end))

-- `_hello_payload`; `none` where the provider raises.
unfoldable pub hello_payload : (seq : ℕ) → Option Fields → Fields
hello_payload seq state = field "t" (str "hello") (
    field "seq" (int (pos seq))
      (field "content" (obj (elim state [ none ↦ end | some f ↦ f ])) end))

pub record Reading : Type 0 where
  pub loads : String → Option Json
  pub shown : Json → String

-- `str(data.get("text") or "")`
abbrev pub text_of : Reading → Option Json → String
text_of r none = ""
text_of r (some null) = ""
text_of r (some (str s)) = s
text_of r (some (bool false)) = ""
text_of r (some (int (pos zero))) = ""
text_of r (some (float (pos zero))) = ""
text_of r (some (arr nil)) = ""
text_of r (some (obj end)) = ""
text_of r (some j) = r.shown j

abbrev pub mid_of : Option Json → Option String
mid_of (some (str m)) = some m
mid_of _ = none

-- The gateway's cache of mids, and the core.
pub record Session : Type 0 where
  pub seen : List String
  pub core : Core

abbrev pub accept_text :
    (size now : ℕ) → (text : String) → (mid : Option String) → Session → Session
accept_text size now text mid s =
    let (seen', taken) = accept_mid size mid s.seen in
    let core' = on_input now text mid s.core in
    record s { seen = seen'; core = if taken then core' else s.core }

-- `_accept_input`
unfoldable pub accept_input : Reading → (size now : ℕ) → Fields → Session → Session
unfolding get strip on_input accept_mid
accept_input r size now d s =
    let text = strip (text_of r (get "text" d)) in
    if text == "" then s else accept_text size now text (mid_of (get "mid" d)) s

pub data Kind : Type 0 where
  input : Kind
  ping : Kind
  pausing : (paused : Bool) → Kind
  unknown : Kind

abbrev pub kind_of : Option Json → Kind
kind_of (some (str k)) =
    if k == "input"
    then input
    else if k == "ping"
    then ping
    else if k == "pause"
    then pausing true
    else if k == "resume"
    then pausing false
    else unknown
kind_of _ = unknown

abbrev pub dict_of : Option Json → Option Fields
dict_of (some (obj d)) = some d
dict_of _ = none

abbrev pub route_kind : Reading → (size now : ℕ) → Fields → Kind → Session → Session × Option Fields
route_kind r size now d input s = (accept_input r size now d s, none)
route_kind r size now d ping s = (s, some (field "t" (str "pong") (field "content" (obj end) end)))
route_kind r size now d (pausing p) s = (record s { core = on_pause p s.core }, none)
route_kind r size now d unknown s = (s, none)

abbrev pub route_parsed :
    Reading → (size now : ℕ) → Option Fields → Session → Session × Option Fields
route_parsed r size now none s = (s, none)
route_parsed r size now (some d) s = route_kind r size now d (kind_of (get "t" d)) s

-- `_route_message`, and the reply.
unfoldable pub route_message :
    Reading → (size now : ℕ) → (raw : String) → Session → Session × Option Fields
unfolding accept_input on_pause get
route_message r size now raw s = route_parsed r size now (dict_of (r.loads raw)) s

-- The messages of the desktops in the order in which they come, each with its time.
unfoldable pub route_messages : Reading → (size : ℕ) → List (ℕ × String) → Session → Session
unfolding route_message
route_messages r size [] s = s
route_messages r size ((now, raw) ∷ ms) s =
    route_messages r size ms (route_message r size now raw s).0
