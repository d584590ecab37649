-- ===== src/Turn/Render.antt =====
-- nan/turn/render.py: the messages that a turn becomes.
use nan_itself.Base.{
  String, ◌<>◌, Option, none, some, List, [], ◌∷◌, ◌++◌, map, if◌then◌else◌, ◌==◌, string_eq,
}
use nan_itself.Base.Dict.{Dict, lookup, insert}
use nan_itself.Base.Text.{join}
use nan_itself.Llm.Types.{Message, user, assistant, tool, VerbCall}
use nan_itself.Turn.Model.{
  Turn, TurnPhase, observed, injected, DeltaEvent, Injection, InboxMessage, InboxKind, VerbResult,
  interrupted,
}

-- `grouped.setdefault(section, []).append(line)`
abbrev pub file_under : String → String → Dict String (List String) → Dict String (List String)
file_under section line [] = (section, line ∷ []) ∷ []
file_under section line ((s, lines) ∷ d) =
    if section == s then (s, lines ++ line ∷ []) ∷ d else (s, lines) ∷ file_under section line d

-- The loop over `turn.delta`.
unfoldable pub group : Dict String (List String) → List DeltaEvent → Dict String (List String)
group d [] = d
group d (e ∷ es) = group (file_under e.section e.line d) es

abbrev pub delta_line : String × List String → String
delta_line (section, lines) =
    "<" <> (section <> (">" <> (join "\n" lines <> ("</" <> (section <> ">")))))

abbrev pub wrap_delta : Dict String (List String) → Option String
wrap_delta [] = none
wrap_delta (g ∷ gs) = some ("<delta>\n" <> (join "\n" (map delta_line (g ∷ gs)) <> "\n</delta>"))

unfoldable pub delta_section : Turn → Option String
unfolding group
delta_section t = wrap_delta (group [] t.delta)

abbrev pub service_text : Injection → String
service_text i =
    let body = if i.ok then i.text else "[service error] " <> i.text in
    "<service id=\"" <> (i.service_id <> ("\">\n" <> (body <> "\n</service>")))

abbrev pub wrap_injections : List Injection → Option String
wrap_injections [] = none
wrap_injections (i ∷ is) =
    some ("<injection>\n" <> (join "\n\n" (map service_text (i ∷ is)) <> "\n</injection>"))

unfoldable pub injection_section : Turn → Option String
injection_section t = wrap_injections t.injections

abbrev pub kind_name : InboxKind → String
kind_name InboxKind.user = "user"
kind_name InboxKind.parentagent = "parentagent"
kind_name InboxKind.subagent = "subagent"

abbrev pub sender_id : InboxKind → String → String
sender_id InboxKind.subagent source = " id=\"" <> (source <> "\"")
sender_id _ source = ""

abbrev pub attributes : InboxMessage → String
attributes m =
    let attrs = sender_id m.kind m.source in
    if m.event == "send" then attrs else attrs <> (" event=\"" <> (m.event <> "\""))

abbrev pub inbox_text : InboxMessage → String
inbox_text m =
    let kind = kind_name m.kind in
    "<" <> (kind <> (attributes m <> (">\n" <> (m.text <> ("\n</" <> (kind <> ">"))))))

abbrev pub wrap_inbox : List InboxMessage → Option String
wrap_inbox [] = none
wrap_inbox (m ∷ ms) = some ("<inbox>\n" <> (join "\n\n" (map inbox_text (m ∷ ms)) <> "\n</inbox>"))

unfoldable pub inbox_section : Turn → Option String
inbox_section t = wrap_inbox t.inbox

-- `[section for section in ... if section is not None]`
abbrev pub present : List (Option String) → List String
present [] = []
present (none ∷ os) = present os
present (some s ∷ os) = s ∷ present os

-- `text or fallback`
abbrev pub or_text : String → String → String
or_text s fallback = if s == "" then fallback else s

unfoldable pub observation_message : Turn → Message
unfolding delta_section injection_section inbox_section
observation_message t =
    let sections = present (delta_section t ∷ injection_section t ∷ inbox_section t ∷ []) in
    record {
      role = user;
      content = some (or_text (join "\n\n" sections) "(no input this turn)");
      thinking = [];
      tool_calls = [];
      tool_call_id = none;
    }

abbrev pub reply_text : Option String → String
reply_text none = ""
reply_text (some s) = s

abbrev pub assistant_message : Turn → Message
assistant_message t = record {
  role = assistant;
  content = some (reply_text t.reply);
  thinking = t.thinking;
  tool_calls = t.verb_calls;
  tool_call_id = none;
}

-- `{result.call_id: result for result in turn.verb_results}`: the last result of an id stands.
unfoldable pub by_call_id : Dict String VerbResult → List VerbResult → Dict String VerbResult
by_call_id d [] = d
by_call_id d (r ∷ rs) = by_call_id (insert r.call_id r d) rs

abbrev pub result_output : Option VerbResult → String
result_output none = interrupted
result_output (some r) = r.output

unfoldable pub tool_message : Dict String VerbResult → VerbCall → Message
tool_message results call = record {
  role = tool;
  content = some (result_output (lookup call.id results));
  thinking = [];
  tool_calls = [];
  tool_call_id = some call.id;
}

-- What a turn renders as once the model has answered.
abbrev pub answered : Turn → List Message
answered t =
    observation_message t
    ∷ assistant_message t
    ∷ map (tool_message (by_call_id [] t.verb_results)) t.verb_calls

abbrev pub render_in : TurnPhase → Turn → List Message
render_in observed t = observation_message t ∷ []
render_in injected t = observation_message t ∷ []
render_in _ t = answered t

unfoldable pub render_turn : Turn → List Message
render_turn t = render_in t.phase t

abbrev pub freeze_in : Option (List Message) → Turn → Turn
freeze_in (some messages) t = t
freeze_in none t = record t { rendered = some (render_turn t) }

unfoldable pub freeze_turn : Turn → Turn
freeze_turn t = freeze_in t.rendered t
