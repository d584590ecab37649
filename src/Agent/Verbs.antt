-- ===== src/Agent/Verbs.antt =====
-- nan/agent/core.py: a turn's verbs over its whole life: its first attempt and each later one, with
-- what other tasks do to the agent in between.
use nan_itself.Base.{
  ℕ, ◌+◌, ◌≡◌, refl, ◌∙◌, subst, Bool, true, false, Option, none, some, List, [], ◌∷◌, arith, ltb,
  if◌then◌else◌, string_eq, nat_eq, last?, last?-snoc,
}
use nan_itself.Llm.Types.{VerbCall}
use nan_itself.Turn.Model.{TurnOrigin, normal, context_cleared, Turn, noted}
use nan_itself.Agent.State.{
  fresh_turn, history_chars, Agent, hold_turn, resident_turn, open_turn, open_of, open_after,
  observe,
}
use nan_itself.Agent.Run.{
  Env, World, Run, Outcome, done, raised, cancelled, Interrupt, interrupts, await, continue, ◌>>=◌,
}
use nan_itself.Agent.Turns.{
  Config, run_turn, resume_turn, resume_at, run_turn_task, after_task, try_except, complete_turn,
}
use nan_itself.Agent.Triple.{View, Triple, Ends, turns-interrupts, await-IsSilent}
use nan_itself.Agent.Once.{begins, StartedFor, AtMostOnce, Early, Holds, hold-Holds}
use nan_itself.Agent.Lives.{complete_turn-AtMostOnce, open_of-some}

-- What a task leaves behind, whichever way it ends.
pub whichever :
    {A : Type 0} (m : Run A) (P E : View) (w : World)
    → Triple E P m (λ _. E)
    → P w.agent.turns w.started_verbs
    → E (m w).1.agent.turns (m w).1.started_verbs
whichever {A} m P E w t p = left (m w).0 (m w).1 (t.at w p)
  where
    left : (r : Outcome A) (w : World) → Ends (λ _. E) E r w → E w.agent.turns w.started_verbs
    left (done a) w h = h
    left (raised e) w h = h
    left cancelled w h = h

pub after_task-turns :
    (r : Outcome (Unit {0})) (w : World)
    → ((after_task r w).1.agent.turns ≡ w.agent.turns)
      × ((after_task r w).1.started_verbs ≡ w.started_verbs)
after_task-turns (done u) w = (refl, refl)
after_task-turns (raised e) w = (refl, refl)
after_task-turns cancelled w = ground arith

-- What holds after the await before a task's first step, and after the task, holds whichever way the
-- await ends.
pub continue-world :
    (r : Outcome ℕ) (m : Run (Unit {0})) (P : World → Type 0) (w : World)
    → P w
    → P (m w).1
    → P (continue r (λ _. m) w).1
continue-world (done n) m P w before after = after
continue-world (raised e) m P w before after = before
continue-world cancelled m P w before after = before

pub open_turn-holds :
    (now limit : ℕ) (a : Agent)
    → last? (open_turn now limit a).0.turns ≡ some (open_turn now limit a).1
unfolding open_turn
open_turn-holds now limit a = opened (last? a.turns)
  where
    opened :
        (o : Option Turn)
        → last? (open_after now limit o a).0.turns ≡ some (open_after now limit o a).1
    opened none = last?-snoc a.turns (fresh_turn now 0 TurnOrigin.first a)
    opened (some t) = room t (ltb limit (history_chars a))
      where
        room :
            (t : Turn) (b : Bool)
            → last?
                (if b
                  then observe now [] (t.epoch + 1) context_cleared a
                  else observe now a.turns t.epoch normal a).0.turns
              ≡ some
                  (if b
                    then observe now [] (t.epoch + 1) context_cleared a
                    else observe now a.turns t.epoch normal a).1
        room t true = refl
        room t false = last?-snoc a.turns (fresh_turn now t.epoch normal a)

-- The later attempts at a turn: each resumes what the last one and the tasks in between left.
abbrev pub attempts : Config → List (Env × List Interrupt) → World → World
attempts cfg [] w = w
attempts cfg ((env, between) ∷ later) w =
    attempts cfg later
      (run_turn_task env cfg true (record w { agent = interrupts between w.agent })).1

module _ (cfg : Config) (base : List VerbCall) where
  run_turn-AtMostOnce :
      (env : Env) (w : World)
      → (w.started_verbs ≡ base)
      → AtMostOnce cfg base (run_turn env cfg w).1.agent.turns (run_turn env cfg w).1.started_verbs
  unfolding run_turn
  run_turn-AtMostOnce env w h =
      let (a, t) = open_turn (env.clock w.tick) cfg.history_char_limit w.agent in
      whichever (complete_turn env cfg false t) (Early cfg base) (AtMostOnce cfg base)
        (record w { agent = a }) (complete_turn-AtMostOnce env cfg base false t)
        (record { old = t; held = open_turn-holds _ _ w.agent; none_yet = h })

  resume_at-AtMostOnce :
      (env : Env) (o : Option Turn) (w : World)
      → ((t : Turn) → (o ≡ some t) → last? w.agent.turns ≡ some t)
      → AtMostOnce cfg base w.agent.turns w.started_verbs
      → AtMostOnce cfg base
          (resume_at env cfg o w).1.agent.turns
          (resume_at env cfg o w).1.started_verbs
  unfolding hold_turn noted
  resume_at-AtMostOnce env none w held h = h
  resume_at-AtMostOnce env (some t) w held h =
      let t' = noted t "resumed" "agent" in
      whichever (complete_turn env cfg true t') (Holds cfg base t') (AtMostOnce cfg base)
        (record w { agent = hold_turn t' w.agent }) (complete_turn-AtMostOnce env cfg base true t')
        (hold-Holds cfg base t t' w.agent.turns w.started_verbs refl refl (record {
          held = held t refl;
          fits = subst (λ o. StartedFor cfg base o w.started_verbs) (held t refl) h;
        }))

  resume_turn-AtMostOnce :
      (env : Env) (w : World)
      → AtMostOnce cfg base w.agent.turns w.started_verbs
      → AtMostOnce cfg base
          (resume_turn env cfg w).1.agent.turns
          (resume_turn env cfg w).1.started_verbs
  unfolding resume_turn resident_turn
  resume_turn-AtMostOnce env w h =
      resume_at-AtMostOnce env (open_of (last? w.agent.turns)) w (open_of-some env cfg base _) h

  task-AtMostOnce :
      (m : Run (Unit {0})) (w : World)
      → AtMostOnce cfg base (m w).1.agent.turns (m w).1.started_verbs
      → AtMostOnce cfg base
          (try_except after_task m w).1.agent.turns
          (try_except after_task m w).1.started_verbs
  unfolding try_except
  task-AtMostOnce m w h = let (t, v) = after_task-turns (m w).0 (m w).1 in rw (t, v) h

  begins-AtMostOnce :
      (ts : List Turn) (vs : List VerbCall) → (vs ≡ base) → AtMostOnce cfg base ts vs
  begins-AtMostOnce ts vs e = for_last (last? ts)
    where
      for_last : (o : Option Turn) → StartedFor cfg base o vs
      for_last none = e
      for_last (some t) = begins cfg base t.phase t.verb_calls vs e

  opening-AtMostOnce :
      (env : Env) (w : World)
      → (w.started_verbs ≡ base)
      → AtMostOnce cfg base
          (run_turn_task env cfg false w).1.agent.turns
          (run_turn_task env cfg false w).1.started_verbs
  unfolding run_turn_task ◌>>=◌
  opening-AtMostOnce env w h =
      let w₀ = record w { agent = record w.agent { paced = false; turn_task = true } } in
      let w' = (await env w₀).1 in
      let e : w'.started_verbs ≡ base = ((await-IsSilent env).same w₀).1 ∙ h in
      task-AtMostOnce (await env >>= λ _. run_turn env cfg) w₀ (
        continue-world (await env w₀).0 (run_turn env cfg)
          (λ (v : World). AtMostOnce cfg base v.agent.turns v.started_verbs) w'
          (begins-AtMostOnce w'.agent.turns w'.started_verbs e) (run_turn-AtMostOnce env w' e))

  resuming-AtMostOnce :
      (env : Env) (w : World)
      → AtMostOnce cfg base w.agent.turns w.started_verbs
      → AtMostOnce cfg base
          (run_turn_task env cfg true w).1.agent.turns
          (run_turn_task env cfg true w).1.started_verbs
  unfolding run_turn_task ◌>>=◌
  resuming-AtMostOnce env w h =
      let w₀ = record w { agent = record w.agent { paced = false; turn_task = true } } in
      let w' = (await env w₀).1 in
      let (ts, vs) = (await-IsSilent env).same w₀ in
      let h' : AtMostOnce cfg base w'.agent.turns w'.started_verbs = rw (ts, vs) h in
      task-AtMostOnce (await env >>= λ _. resume_turn env cfg) w₀ (
        continue-world (await env w₀).0 (resume_turn env cfg)
          (λ (v : World). AtMostOnce cfg base v.agent.turns v.started_verbs) w' h'
          (resume_turn-AtMostOnce env w' h'))

  attempts-AtMostOnce :
      (later : List (Env × List Interrupt)) (w : World)
      → AtMostOnce cfg base w.agent.turns w.started_verbs
      → AtMostOnce cfg base (attempts cfg later w).agent.turns (attempts cfg later w).started_verbs
  attempts-AtMostOnce [] w h = h
  attempts-AtMostOnce ((env, between) ∷ later) w h =
      attempts-AtMostOnce later _
        (resuming-AtMostOnce env _ (rw (turns-interrupts between w.agent) h))

-- A turn is opened, and after its first attempt it is attempted any number of times more, whatever
-- each await and the tasks between the attempts do: pause, resume, kill, finish, suspend, deliver,
-- fail, or answer. The verbs started since then are the first of the calls of the turn that the
-- agent holds at the end, counting those that parse and name a verb of the agent, in their order
-- and each once; none is started while the model has not answered.
pub attempts-starts :
    (cfg : Config) (env : Env) (later : List (Env × List Interrupt)) (w : World)
    → AtMostOnce cfg w.started_verbs
        (attempts cfg later (run_turn_task env cfg false w).1).agent.turns
        (attempts cfg later (run_turn_task env cfg false w).1).started_verbs
attempts-starts cfg env later w =
    attempts-AtMostOnce cfg w.started_verbs later _
      (opening-AtMostOnce cfg w.started_verbs env w refl)
