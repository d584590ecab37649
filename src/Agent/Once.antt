-- ===== src/Agent/Once.antt =====
-- nan/agent/core.py: the verbs of a turn are started at most once and in order, whatever pauses,
-- kills, failures and resumptions the turn goes through.
use nan_itself.Base.{
  last?-set_last, ◌≡◌, refl, ◌∙◌, ◌≢◌, Bool, not, ◌&&◌, Option, none, some, List, [], ◌++◌,
  append-nil, contains, string_eq, nat_eq, last?, set_last, select,
}
use nan_itself.Llm.Types.{VerbCall}
use nan_itself.Turn.Model.{Turn, TurnPhase, observed, injected, thought}
use nan_itself.Agent.State.{hold_turn}
use nan_itself.Agent.Run.{modify}
use nan_itself.Agent.Turns.{Config, is_malformed}
use nan_itself.Agent.Triple.{View, Triple}

-- The calls of a turn that start a verb: parsed, and of a verb that the agent has.

abbrev pub is_runnable : Config → VerbCall → Bool
is_runnable cfg c = not (is_malformed c) && contains cfg.verbs c.name

abbrev pub runnable : Config → List VerbCall → List VerbCall
runnable cfg = select (is_runnable cfg)

module _ (cfg : Config) (base : List VerbCall) where
  -- The verbs started since `base` are the first of the calls, in their order.
  pub record Started (calls : List VerbCall) (vs : List VerbCall) : Type 0 where
    pub ran : List VerbCall
    pub rest : List VerbCall
    pub since : vs ≡ base ++ ran
    pub first_of : runnable cfg calls ≡ ran ++ rest

  -- What may have been started in a phase: nothing before the model has answered.
  abbrev pub StartedIn : TurnPhase → List VerbCall → List VerbCall → Type 0
  StartedIn observed calls vs = vs ≡ base
  StartedIn injected calls vs = vs ≡ base
  StartedIn _ calls vs = Started calls vs

  abbrev pub StartedFor : Option Turn → List VerbCall → Type 0
  StartedFor none vs = vs ≡ base
  StartedFor (some t) vs = StartedIn t.phase t.verb_calls vs

  -- The verbs started since `base` fit the turn that the agent holds.
  abbrev pub AtMostOnce : View
  AtMostOnce ts vs = StartedFor (last? ts) vs

  -- The agent holds a turn that the verbs started fit, and none has been started.
  pub record Early (ts : List Turn) (vs : List VerbCall) : Type 0 where
    pub old : Turn
    pub held : last? ts ≡ some old
    pub none_yet : vs ≡ base

  -- The agent holds the turn `t`, and the verbs started fit it.
  pub record Holds (t : Turn) (ts : List Turn) (vs : List VerbCall) : Type 0 where
    pub held : last? ts ≡ some t
    pub fits : StartedIn t.phase t.verb_calls vs

  -- The agent holds a turn that the verbs started fit, and they fit the calls of `t`.
  pub record Ready (t : Turn) (ts : List Turn) (vs : List VerbCall) : Type 0 where
    pub old : Turn
    pub held : last? ts ≡ some old
    pub fits : StartedIn old.phase old.verb_calls vs
    pub next : Started t.verb_calls vs

  -- The agent holds `t`, which is at its verbs: `calls` are still to be handled.
  pub record Going (calls : List VerbCall) (t : Turn) (ts : List Turn) (vs : List VerbCall)
      : Type 0 where
    pub held : last? ts ≡ some t
    pub at_verbs : t.phase ≡ thought
    pub ran : List VerbCall
    pub since : vs ≡ base ++ ran
    pub left : runnable cfg t.verb_calls ≡ ran ++ runnable cfg calls

  early-nil : (calls : List VerbCall) (vs : List VerbCall) → vs ≡ base → Started calls vs
  early-nil calls vs h = record {
    ran = [];
    rest = runnable cfg calls;
    since = rw append-nil h;
    first_of = refl;
  }

  pub begins : (p : TurnPhase) (calls vs : List VerbCall) → vs ≡ base → StartedIn p calls vs
  begins observed calls vs h = h
  begins injected calls vs h = h
  begins _ calls vs h = early-nil calls vs h

  -- After the model's answer a phase tells no more than that the verbs are the first.
  pub late :
      (p : TurnPhase) (calls vs : List VerbCall)
      → Started calls vs
      → p ≢ observed
      → p ≢ injected
      → StartedIn p calls vs
  late observed calls vs s h k = absurd (h refl)
  late injected calls vs s h k = absurd (k refl)
  late _ calls vs s h k = s

  pub Early→AtMostOnce : (ts : List Turn) (vs : List VerbCall) → Early ts vs → AtMostOnce ts vs
  Early→AtMostOnce ts vs h = rw h.held (begins h.old.phase h.old.verb_calls vs h.none_yet)

  pub Holds→AtMostOnce :
      (t : Turn) (ts : List Turn) (vs : List VerbCall) → Holds t ts vs → AtMostOnce ts vs
  Holds→AtMostOnce t ts vs h = rw h.held h.fits

  pub Ready→AtMostOnce :
      (t : Turn) (ts : List Turn) (vs : List VerbCall) → Ready t ts vs → AtMostOnce ts vs
  Ready→AtMostOnce t ts vs h = rw h.held h.fits

  Going→Started :
      (calls : List VerbCall) (t : Turn) (ts : List Turn) (vs : List VerbCall)
      → Going calls t ts vs
      → Started t.verb_calls vs
  Going→Started calls t ts vs g = record {
    ran = g.ran;
    rest = runnable cfg calls;
    since = g.since;
    first_of = g.left;
  }

  Going-fits :
      (calls : List VerbCall) (t : Turn) (ts : List Turn) (vs : List VerbCall)
      → Going calls t ts vs
      → StartedIn t.phase t.verb_calls vs
  Going-fits calls t ts vs g = rw g.at_verbs (Going→Started calls t ts vs g)

  pub Going→AtMostOnce :
      (calls : List VerbCall) (t : Turn) (ts : List Turn) (vs : List VerbCall)
      → Going calls t ts vs
      → AtMostOnce ts vs
  Going→AtMostOnce calls t ts vs g = rw g.held (Going-fits calls t ts vs g)

  pub Going→Ready :
      (calls : List VerbCall) (t u : Turn) (ts : List Turn) (vs : List VerbCall)
      → (u.verb_calls ≡ t.verb_calls)
      → Going calls t ts vs
      → Ready u ts vs
  Going→Ready calls t u ts vs e g = record {
    old = t;
    held = g.held;
    fits = Going-fits calls t ts vs g;
    next = rw e (Going→Started calls t ts vs g);
  }

  -- Holding another turn.
  pub Triple-hold :
      (t : Turn) {E P Q : View}
      → ((ts : List Turn) (vs : List VerbCall) → P ts vs → Q (set_last t ts) vs)
      → Triple E P (modify (hold_turn t)) (λ _. Q)
  unfolding hold_turn
  Triple-hold t h = record { at = λ w p. h _ _ p }

  pub hold-Early :
      (t : Turn) (ts : List Turn) (vs : List VerbCall) → Early ts vs → Early (set_last t ts) vs
  hold-Early t ts vs h = record {
    old = t;
    held = last?-set_last t h.old ts h.held;
    none_yet = h.none_yet;
  }

  pub hold-Holds :
      (t u : Turn) (ts : List Turn) (vs : List VerbCall)
      → (u.phase ≡ t.phase)
      → (u.verb_calls ≡ t.verb_calls)
      → Holds t ts vs
      → Holds u (set_last u ts) vs
  hold-Holds t u ts vs p c h = record {
    held = last?-set_last u t ts h.held;
    fits = rw (p, c) h.fits;
  }

  pub Early-hold :
      (t : Turn) (ts : List Turn) (vs : List VerbCall)
      → (t.phase ≡ thought)
      → Early ts vs
      → Going t.verb_calls t (set_last t ts) vs
  Early-hold t ts vs p h = record {
    held = last?-set_last t h.old ts h.held;
    at_verbs = p;
    ran = [];
    since = rw append-nil h.none_yet;
    left = refl;
  }

  pub hold-Going :
      (calls : List VerbCall) (t u : Turn) (ts : List Turn) (vs : List VerbCall)
      → (u.phase ≡ t.phase)
      → (u.verb_calls ≡ t.verb_calls)
      → Going calls t ts vs
      → Going calls u (set_last u ts) vs
  hold-Going calls t u ts vs p c g = record {
    held = last?-set_last u t ts g.held;
    at_verbs = p ∙ g.at_verbs;
    ran = g.ran;
    since = g.since;
    left = rw c g.left;
  }

  pub Ready-hold :
      (t : Turn) (ts : List Turn) (vs : List VerbCall)
      → (t.phase ≢ observed)
      → (t.phase ≢ injected)
      → Ready t ts vs
      → Holds t (set_last t ts) vs
  Ready-hold t ts vs ho hi r = record {
    held = last?-set_last t r.old ts r.held;
    fits = late t.phase t.verb_calls vs r.next ho hi;
  }
