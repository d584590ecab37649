-- ===== src/Agent/Lives.antt =====
-- nan/agent/core.py: the verbs that a turn's task starts, over a turn and all its resumptions.
use nan_itself.Base.{
  ℕ, String, ◌≡◌, refl, subst, inl, inr, Bool, true, false, not, ◌&&◌, Option, none, some, List,
  arith, Bool-cases, string_eq, nat_eq, last?, set_last,
}
use nan_itself.Llm.Types.{VerbCall}
use nan_itself.Turn.Model.{
  Death, Turn, TurnPhase, observed, injected, thought, acted, committed, noted, close_interrupted,
}
use nan_itself.Agent.Failure.{Exception}
use nan_itself.Agent.State.{
  record_on, Agent, hold_turn, record_delta, note_delta, begin_death, freeze, open_of, is_exiting,
}
use nan_itself.Agent.Run.{Env, World, Outcome, done, raised, cancelled, pure, modify, ◌>>=◌}
use nan_itself.Agent.Turns.{
  Config, with_persona, persist, resume_in, committed_turn, commit, phases, attempt, fail_turn,
  park, settle, complete_turn, end_failed,
}
use nan_itself.Agent.Triple.{
  View, Ends, Triple-silent, Triple-pure, Triple-weaken, Triple-bind, Triple-try, await-IsSilent,
}
use nan_itself.Agent.Silent.{gets-IsSilent, refresh_persona-IsSilent}
use nan_itself.Agent.Once.{
  Started, StartedIn, StartedFor, AtMostOnce, Early, Holds, Ready, Early→AtMostOnce,
  Holds→AtMostOnce, Ready→AtMostOnce, Triple-hold, hold-Early, hold-Holds, Ready-hold,
}
use nan_itself.Agent.Phases.{Safe, persisting, run_phases-Ready, committed_turn-keeps}

module _ (env : Env) (cfg : Config) (base : List VerbCall) where
  commit-AtMostOnce :
      (t : Turn) → Safe env cfg base (Ready cfg base t) (commit env t) (λ _. AtMostOnce cfg base)
  unfolding commit
  commit-AtMostOnce t =
      Triple-bind _ _ (Triple-silent _ (Ready→AtMostOnce cfg base t) (gets-IsSilent _)) λ death.
        Triple-bind _ _ (Triple-silent _ (Ready→AtMostOnce cfg base t) (gets-IsSilent _)) λ now.
          Triple-bind _ _ (Triple-hold cfg base _ {Q = AtMostOnce cfg base} (frozen now death)) λ _.
            Triple-bind _ _ (record { at = λ w h. h })
              λ _. Triple-bind _ _ (persisting env cfg base (λ ts vs h. h)) λ _.
                Triple-bind _ _ (Triple-silent _ (λ ts vs h. h) (await-IsSilent env))
                  λ _. Triple-bind _ _ (record { at = λ w h. h }) λ _. Triple-pure _ (λ ts vs h. h)
    where
      frozen :
          (now : ℕ) (d : Option Death) (ts : List Turn) (vs : List VerbCall)
          → Ready cfg base t ts vs
          → AtMostOnce cfg base (set_last (committed_turn now d t) ts) vs
      frozen now d ts vs r =
          let (p, c) = committed_turn-keeps env cfg base now d t in
          Holds→AtMostOnce cfg base _ _ _ (
            Ready-hold cfg base _ ts vs (λ e. ground arith) (λ e. ground arith)
              (record { old = r.old; held = r.held; fits = r.fits; next = rw c r.next }))

  -- What holds when the phases of a turn start: it is held, and a new turn has started no verb.
  abbrev pub Opens : Bool → Turn → View
  Opens true t = Holds cfg base t
  Opens false t = Early cfg base

  unopened :
      (p : TurnPhase) (t : Turn)
      → (t.phase ≡ p)
      → ((vs : List VerbCall) → StartedIn cfg base p t.verb_calls vs → vs ≡ base)
      → (ts : List Turn) (vs : List VerbCall) → Holds cfg base t ts vs
      → Early cfg base ts vs
  unopened p t e k ts vs h = record {
    old = t;
    held = h.held;
    none_yet = k vs (subst (λ q. StartedIn cfg base q t.verb_calls vs) e h.fits);
  }

  resumable :
      (p : TurnPhase) (t u : Turn)
      → (t.phase ≡ p)
      → ((vs : List VerbCall)
          → StartedIn cfg base p t.verb_calls vs
          → Started cfg base t.verb_calls vs)
      → (u.verb_calls ≡ t.verb_calls)
      → (ts : List Turn) (vs : List VerbCall) → Holds cfg base t ts vs
      → Ready cfg base u ts vs
  resumable p t u e k c ts vs h = record {
    old = t;
    held = h.held;
    fits = h.fits;
    next = rw c (k vs (subst (λ q. StartedIn cfg base q t.verb_calls vs) e h.fits));
  }

  close_calls : (t : Turn) (now : ℕ) → (close_interrupted now t).verb_calls ≡ t.verb_calls
  unfolding close_interrupted
  close_calls t now = refl

  resume_in-Ready :
      (p : TurnPhase) (t : Turn)
      → (t.phase ≡ p)
      → Safe env cfg base (Holds cfg base t) (resume_in env cfg p t) (Ready cfg base)
  resume_in-Ready observed t e =
      Triple-weaken (unopened observed t e (λ vs h. h)) (λ u ts vs r. r)
        (run_phases-Ready env cfg base t)
  resume_in-Ready injected t e =
      Triple-weaken (unopened injected t e (λ vs h. h)) (λ u ts vs r. r)
        (run_phases-Ready env cfg base t)
  resume_in-Ready acted t e = record { at = λ w h. resumable acted t t e (λ vs s. s) refl _ _ h }
  resume_in-Ready thought t e = record {
    at = λ w h. resumable thought t _ e (λ vs s. s) (close_calls t _) _ _ h;
  }
  resume_in-Ready committed t e = record {
    at = λ w h. resumable committed t _ e (λ vs s. s) (close_calls t _) _ _ h;
  }

  phases-Ready :
      (resumed : Bool) (t : Turn)
      → Safe env cfg base (Opens resumed t) (phases env cfg resumed t) (Ready cfg base)
  phases-Ready true t = resume_in-Ready t.phase t refl
  phases-Ready false t = run_phases-Ready env cfg base t

  Opens→AtMostOnce :
      (resumed : Bool) (t : Turn) (ts : List Turn) (vs : List VerbCall)
      → Opens resumed t ts vs
      → AtMostOnce cfg base ts vs
  Opens→AtMostOnce true t = Holds→AtMostOnce cfg base t
  Opens→AtMostOnce false t = Early→AtMostOnce cfg base

  hold-Opens :
      (resumed : Bool) (t : Turn) (o : Option String) (ts : List Turn) (vs : List VerbCall)
      → Opens resumed t ts vs
      → Opens resumed (with_persona o t) (set_last (with_persona o t) ts) vs
  hold-Opens true t none ts vs h = hold-Holds cfg base t t ts vs refl refl h
  hold-Opens true t (some s) ts vs h = hold-Holds cfg base t _ ts vs refl refl h
  hold-Opens false t o ts vs h = hold-Early cfg base _ ts vs h

  attempt-AtMostOnce :
      (resumed : Bool) (t : Turn)
      → Safe env cfg base (Opens resumed t) (attempt env cfg resumed t) (λ _. AtMostOnce cfg base)
  unfolding attempt
  attempt-AtMostOnce resumed t =
      Triple-bind _ _ (Triple-silent _ (Opens→AtMostOnce resumed t) (refresh_persona-IsSilent env))
        λ read. Triple-bind _ _ (Triple-hold cfg base _ (hold-Opens resumed t read.1)) λ _.
          Triple-bind _ _ (persisting env cfg base (Opens→AtMostOnce resumed _)) λ _.
            Triple-bind _ _ (phases-Ready resumed (with_persona read.1 t))
              λ u. Triple-bind _ _ (commit-AtMostOnce u) λ _. Triple-pure _ (λ ts vs h. h)

  pub open_of-some : (o : Option Turn) (t : Turn) → (open_of o ≡ some t) → o ≡ some t
  open_of-some o t h = ground arith

  record_on-AtMostOnce :
      (o : Option Turn) (line section : String) (a : Agent) (vs : List VerbCall)
      → ((t : Turn) → (o ≡ some t) → last? a.turns ≡ some t)
      → AtMostOnce cfg base a.turns vs
      → AtMostOnce cfg base (record_on o line section a).turns vs
  unfolding note_delta hold_turn noted
  record_on-AtMostOnce none line section a vs held h = h
  record_on-AtMostOnce (some t) line section a vs held h = Holds→AtMostOnce cfg base _ _ vs (
      hold-Holds cfg base t _ a.turns vs refl refl (record {
        held = held t refl;
        fits = subst (λ o. StartedFor cfg base o vs) (held t refl) h;
      }))

  record_delta-AtMostOnce :
      (line section : String) (a : Agent) (vs : List VerbCall)
      → AtMostOnce cfg base a.turns vs
      → AtMostOnce cfg base (record_delta line section a).turns vs
  unfolding record_delta
  record_delta-AtMostOnce line section a vs h =
      record_on-AtMostOnce (open_of (last? a.turns)) line section a vs
        (λ t. open_of-some (last? a.turns) t) h

  pub end_failed-same : (reason : String) (a : Agent) → (end_failed reason a).turns ≡ a.turns
  unfolding begin_death freeze
  end_failed-same reason a = ground arith

  noting :
      (line section : String)
      → Safe env cfg base
          (AtMostOnce cfg base)
          (modify (record_delta line section))
          (λ _. AtMostOnce cfg base)
  noting line section = record {
    at = λ w h. record_delta-AtMostOnce line section w.agent w.started_verbs h;
  }

  fail_turn-AtMostOnce :
      (e : Exception)
      → Safe env cfg base (AtMostOnce cfg base) (fail_turn env e) (λ _. AtMostOnce cfg base)
  unfolding fail_turn
  fail_turn-AtMostOnce e = Triple-bind _ _ (noting _ "agent") λ _.
      Triple-bind _ _ (persisting env cfg base (λ ts vs h. h))
        λ _. record { at = λ w h. rw (end_failed-same _ w.agent) h }

  parking :
      Safe env cfg base
        (AtMostOnce cfg base)
        (modify (record_delta "paused" "agent") >>= λ _. persist env >>= λ _. pure tt)
        (λ _. AtMostOnce cfg base)
  parking = Triple-bind _ _ (noting "paused" "agent") λ _.
      Triple-bind _ _ (persisting env cfg base (λ ts vs h. h)) λ _. Triple-pure _ (λ ts vs h. h)

  park-AtMostOnce : Safe env cfg base (AtMostOnce cfg base) (park env) (λ _. AtMostOnce cfg base)
  unfolding park
  park-AtMostOnce = record {
    at = λ w h. elim (Bool-cases (not (is_exiting w.agent) && w.agent.pause_cancel)) [
      | inl yes_ ↦ rw yes_ (parking.at w h)
      | inr no_ ↦ rw no_ h
    ];
  }

  settle-AtMostOnce :
      (r : Outcome (Unit {0})) (w : World)
      → Ends (λ _. AtMostOnce cfg base) (AtMostOnce cfg base) r w
      → Ends (λ _. AtMostOnce cfg base) (AtMostOnce cfg base) (settle env r w).0 (settle env r w).1
  settle-AtMostOnce (done u) w h = h
  settle-AtMostOnce cancelled w h =
      (Triple-bind (park env) _ park-AtMostOnce (λ _. record { at = λ w h. h })).at w h
  settle-AtMostOnce (raised e) w h = (fail_turn-AtMostOnce e).at w h

  pub complete_turn-AtMostOnce :
      (resumed : Bool) (t : Turn)
      → Safe env cfg base
          (Opens resumed t)
          (complete_turn env cfg resumed t)
          (λ _. AtMostOnce cfg base)
  unfolding complete_turn
  complete_turn-AtMostOnce resumed t =
      Triple-try (settle env) _ settle-AtMostOnce (attempt-AtMostOnce resumed t)
