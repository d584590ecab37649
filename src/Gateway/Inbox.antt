-- ===== src/Gateway/Inbox.antt =====
-- nan/gateway.py and nan/app.py: which of the desktops' messages reach the root's inbox.
use nan_itself.Base.{
  ℕ, suc, String, ◌≡◌, refl, sym, ap, ◌∙◌, subst, inl, inr, Bool, true, false, Option, none, some,
  List, [], ◌∷◌, ◌++◌, map, append_assoc, append-nil, map-append, arith, if◌then◌else◌, Bool-cases,
  ◌==◌, ==_refl, string_eq, nat_eq, length,
}
use nan_itself.Base.Dict.{lookup, insert, lookup-insert}
use nan_itself.Base.Text.{strip}
use nan_itself.Base.Json.{Fields, get}
use nan_itself.Turn.Model.{InboxMessage, from_user}
use nan_itself.Agent.State.{Agent, deliver, pause, resume, freeze}
use nan_itself.Agent.Tree.{Agents, change, stops_pause, pause_tree, stops_resume, resume_tree}
use nan_itself.Agent.Tree.Keep.{view_at, views, Keeps, cascade-views}
use nan_itself.Gateway.Mids.{accept_mid, accept_mids}
use nan_itself.Gateway.Route.{
  running, Core, input_event, on_input, on_pause, Reading, text_of, mid_of, Session, accept_text,
  accept_input, Kind, input, ping, pausing, unknown, kind_of, dict_of, route_kind, route_parsed,
  route_message, route_messages,
}

-- One line that a user typed, and when.
pub record Line : Type 0 where
  pub now : ℕ
  pub text : String
  pub mid : Option String

abbrev pub line_if : (now : ℕ) → (text : String) → (mid : Option String) → List Line
line_if now text mid = if text == "" then [] else record { now = now; text = text; mid = mid } ∷ []

abbrev pub line_kind : Reading → (now : ℕ) → Fields → Kind → List Line
line_kind r now d input = line_if now (strip (text_of r (get "text" d))) (mid_of (get "mid" d))
line_kind r now d k = []

abbrev pub line_parsed : Reading → (now : ℕ) → Option Fields → List Line
line_parsed r now none = []
line_parsed r now (some d) = line_kind r now d (kind_of (get "t" d))

-- The lines that are typed in a run of messages: the inputs whose text is not blank.
unfoldable pub lines : Reading → List (ℕ × String) → List Line
unfolding strip get
lines r [] = []
lines r ((now, raw) ∷ ms) = line_parsed r now (dict_of (r.loads raw)) ++ lines r ms

-- The lines that are taken.
abbrev pub taken : List Bool → List Line → List Line
taken (true ∷ bs) (l ∷ ls) = l ∷ taken bs ls
taken (false ∷ bs) (l ∷ ls) = taken bs ls
taken _ _ = []

abbrev pub message_of : Line → InboxMessage
message_of l = from_user l.now l.text

abbrev pub event_of : Line → Fields
event_of l = input_event l.text l.mid

-- A running core, its root's inbox and the inputs that it logged.
pub record Shows (i : String) (box : List InboxMessage) (log : List Fields) (c : Core)
    : Type 0 where
  pub is_on : c.state ≡ running
  pub root_is : c.root ≡ some i
  pub inbox : views (λ a. a.inbox) c.agents i ≡ some box
  pub logged : c.user_inputs ≡ log

deliver-inbox :
    (m : InboxMessage) (i : String) (s : Agents) (box : List InboxMessage)
    → views (λ a. a.inbox) s i ≡ some box
    → views (λ a. a.inbox) (change (deliver m) i s) i ≡ some (box ++ m ∷ [])
unfolding views deliver
deliver-inbox m i s box e = at (lookup i s) e
  where
    at :
        (o : Option Agent)
        → view_at (λ a. a.inbox) o ≡ some box
        → view_at
            (λ a. a.inbox)
            (lookup i (elim o [ none ↦ s | some a ↦ insert i (deliver m a) s ]))
          ≡ some (box ++ m ∷ [])
    at none e' = absurd (ground arith)
    at (some a) e' = rw (lookup-insert i i (deliver m a) s, ==_refl i) (ground arith)

on_input-Shows :
    (now : ℕ) (text : String) (mid : Option String) (i : String) (box : List InboxMessage)
    (log : List Fields) (c : Core)
    → Shows i box log c
    → Shows i
        (box ++ from_user now text ∷ [])
        (log ++ input_event text mid ∷ [])
        (on_input now text mid c)
unfolding on_input
on_input-Shows now text mid i box log c v =
    rw (v.root_is, v.is_on)
      (record {
        is_on = refl;
        root_is = refl;
        inbox = deliver-inbox (from_user now text) i c.agents box v.inbox;
        logged = ap (λ l. l ++ input_event text mid ∷ []) v.logged;
      })

pause-inbox : Keeps (λ a. a.inbox) pause
unfolding pause freeze
pause-inbox a = ground arith

resume-inbox : Keeps (λ a. a.inbox) resume
unfolding resume
resume-inbox a = ground arith

paused-inbox :
    (paused : Bool) (i j : String) (s : Agents)
    → views (λ a. a.inbox) (if paused then pause_tree i s else resume_tree i s) j
      ≡ views (λ a. a.inbox) s j
unfolding pause_tree resume_tree
paused-inbox true i j s =
    ap (λ (f : String → Option (List InboxMessage)). f j)
      (cascade-views (λ a. a.inbox) stops_pause pause (suc (length s)) i s pause-inbox)
paused-inbox false i j s =
    ap (λ (f : String → Option (List InboxMessage)). f j)
      (cascade-views (λ a. a.inbox) stops_resume resume (suc (length s)) i s resume-inbox)

on_pause-Shows :
    (paused : Bool) (i : String) (box : List InboxMessage) (log : List Fields) (c : Core)
    → Shows i box log c
    → Shows i box log (on_pause paused c)
unfolding on_pause
on_pause-Shows paused i box log c v =
    rw (v.root_is, v.is_on)
      (record {
        is_on = refl;
        root_is = refl;
        inbox = paused-inbox paused i i c.agents ∙ v.inbox;
        logged = v.logged;
      })

-- The cache of mids after a run of lines, and which lines are taken.
abbrev after : (size : ℕ) → List Line → List String → List Bool
after size ls seen = (accept_mids size (map (λ l. l.mid) ls) seen).1

abbrev cache : (size : ℕ) → List Line → List String → List String
cache size ls seen = (accept_mids size (map (λ l. l.mid) ls) seen).0

cache-append :
    (size : ℕ) (ls ls' : List Line) (seen : List String)
    → cache size (ls ++ ls') seen ≡ cache size ls' (cache size ls seen)
unfolding accept_mids
cache-append size [] ls' seen = refl
cache-append size (l ∷ ls) ls' seen = cache-append size ls ls' (accept_mid size l.mid seen).0

taken-append :
    (size : ℕ) (ls ls' : List Line) (seen : List String)
    → taken (after size (ls ++ ls') seen) (ls ++ ls')
      ≡ taken (after size ls seen) ls ++ taken (after size ls' (cache size ls seen)) ls'
unfolding accept_mids
taken-append size [] ls' seen = refl
taken-append size (l ∷ ls) ls' seen =
    let ih = taken-append size ls ls' (accept_mid size l.mid seen).0 in
    elim (Bool-cases (accept_mid size l.mid seen).1) [
      | inl yes_ ↦ rw yes_ (ap (λ r. l ∷ r) ih)
      | inr no_ ↦ rw no_ ih
    ]

map-taken :
    (size : ℕ) (ls ls' : List Line) (seen seen' : List String)
    → seen' ≡ cache size ls seen
    → {X : Type 0} (f : Line → X) (xs : List X)
    → xs ++ map f (taken (after size (ls ++ ls') seen) (ls ++ ls'))
      ≡ (xs ++ map f (taken (after size ls seen) ls)) ++ map f (taken (after size ls' seen') ls')
map-taken size ls ls' seen seen' e f xs =
    let here_ = taken (after size ls seen) ls in
    let there = taken (after size ls' seen') ls' in
    ap (λ t. xs ++ map f t)
      (taken-append size ls ls' seen ∙ ap (λ c. here_ ++ taken (after size ls' c) ls') (sym e))
    ∙ ap (λ t. xs ++ t) (map-append f here_ there)
    ∙ sym (append_assoc xs (map f here_) (map f there))

module _ (r : Reading) (size : ℕ) (i : String) where
  pub Leaves : List Line → List InboxMessage → List Fields → List String → Session → Type 0
  Leaves ls box log seen s =
      (s.seen ≡ (accept_mids size (map (λ l. l.mid) ls) seen).0)
      × Shows i (box ++ map message_of (taken (after size ls seen) ls))
          (log ++ map event_of (taken (after size ls seen) ls)) s.core

  nothing-Leaves :
      (box : List InboxMessage) (log : List Fields) (s : Session)
      → Shows i box log s.core
      → Leaves [] box log s.seen s
  unfolding Leaves accept_mids
  nothing-Leaves box log s v = (refl, rw (append-nil box, append-nil log) v)

  line-Leaves :
      (now : ℕ) (text : String) (mid : Option String) (box : List InboxMessage) (log : List Fields)
      (s : Session)
      → Shows i box log s.core
      → Leaves
          (record { now = now; text = text; mid = mid } ∷ [])
          box
          log
          s.seen
          (accept_text size now text mid s)
  unfolding Leaves accept_mids
  line-Leaves now text mid box log s v = elim (Bool-cases (accept_mid size mid s.seen).1) [
    | inl yes_ ↦ rw yes_ (refl, on_input-Shows now text mid i box log s.core v)
    | inr no_ ↦ rw no_ (refl, rw (append-nil box, append-nil log) v)
  ]

  input-Leaves :
      (now : ℕ) (text : String) (mid : Option String) (box : List InboxMessage) (log : List Fields)
      (s : Session)
      → Shows i box log s.core
      → Leaves
          (line_if now text mid)
          box
          log
          s.seen
          (if text == "" then s else accept_text size now text mid s)
  input-Leaves now text mid box log s v = elim (Bool-cases (text == "")) [
    | inl blank ↦ rw blank (nothing-Leaves box log s v)
    | inr given ↦ rw given (line-Leaves now text mid box log s v)
  ]

  kind-Leaves :
      (now : ℕ) (d : Fields) (k : Kind) (box : List InboxMessage) (log : List Fields) (s : Session)
      → Shows i box log s.core
      → Leaves (line_kind r now d k) box log s.seen (route_kind r size now d k s).0
  unfolding accept_input
  kind-Leaves now d input box log s v =
      input-Leaves now (strip (text_of r (get "text" d))) (mid_of (get "mid" d)) box log s v
  kind-Leaves now d ping box log s v = nothing-Leaves box log s v
  kind-Leaves now d (pausing p) box log s v =
      nothing-Leaves box log (record s { core = on_pause p s.core })
        (on_pause-Shows p i box log s.core v)
  kind-Leaves now d unknown box log s v = nothing-Leaves box log s v

  parsed-Leaves :
      (now : ℕ) (o : Option Fields) (box : List InboxMessage) (log : List Fields) (s : Session)
      → Shows i box log s.core
      → Leaves (line_parsed r now o) box log s.seen (route_parsed r size now o s).0
  parsed-Leaves now none box log s v = nothing-Leaves box log s v
  parsed-Leaves now (some d) box log s v = kind-Leaves now d (kind_of (get "t" d)) box log s v

  Leaves-append :
      (ls ls' : List Line) (box : List InboxMessage) (log : List Fields) (seen : List String)
      (s s' : Session)
      → Leaves ls box log seen s
      → ((box' : List InboxMessage) (log' : List Fields)
          → Shows i box' log' s.core
          → Leaves ls' box' log' s.seen s')
      → Leaves (ls ++ ls') box log seen s'
  unfolding Leaves
  Leaves-append ls ls' box log seen s s' (e, v) next =
      let here_ = taken (after size ls seen) ls in
      let (e', v') = next (box ++ map message_of here_) (log ++ map event_of here_) v in
      (
        e' ∙ ap (cache size ls') e ∙ sym (cache-append size ls ls' seen),
        subst
            (λ b.
              Shows i b (log ++ map event_of (taken (after size (ls ++ ls') seen) (ls ++ ls')))
                s'.core)
            (sym (map-taken size ls ls' seen s.seen e message_of box))
            (subst
              (λ h.
                Shows i
                  (box
                    ++ map message_of here_
                    ++ map message_of (taken (after size ls' s.seen) ls'))
                  h s'.core)
              (sym (map-taken size ls ls' seen s.seen e event_of log)) v'),
      )

  -- Of a run of messages from the desktops to a running core, pauses and pings among them, the lines that
  -- the cache of mids takes are appended to the root's inbox as messages from the user, in their order and
  -- stripped, and so are their events to the log; nothing else is, and the cache is that of the lines.
  pub route_messages-Leaves :
      (ms : List (ℕ × String)) (box : List InboxMessage) (log : List Fields) (s : Session)
      → Shows i box log s.core
      → Leaves (lines r ms) box log s.seen (route_messages r size ms s)
  unfolding lines route_messages route_message
  route_messages-Leaves [] box log s v = nothing-Leaves box log s v
  route_messages-Leaves ((now, raw) ∷ ms) box log s v =
      let o = dict_of (r.loads raw) in
      let s' = (route_parsed r size now o s).0 in
      Leaves-append (line_parsed r now o) (lines r ms) box log s.seen s'
        (route_messages r size ms s') (parsed-Leaves now o box log s v)
        (λ box' log' v'. route_messages-Leaves ms box' log' s' v')
