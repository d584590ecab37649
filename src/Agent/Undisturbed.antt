-- ===== src/Agent/Undisturbed.antt =====
-- nan/agent/core.py: a turn that nothing stops: nothing pauses, kills or suspends the agent, the
-- persona can be read and the model's stream ends.
use nan_itself.Base.{
  ℕ, ◌+◌, String, ◌≡◌, refl, sym, ap, ◌∙◌, subst, inl, inr, Bool, true, false, Option, none, some,
  List, [], ◌∷◌, ◌++◌, append_assoc, append-nil, arith, if◌then◌else◌, Bool-cases, ◌==◌, contains,
  string_eq, nat_eq, last?, All, last?-set_last,
}
use nan_itself.Llm.Types.{VerbCall}
use nan_itself.Turn.Model.{Turn, TurnPhase, observed, injected, thought, acted, committed}
use nan_itself.Agent.State.{
  deliver, note_delta, resume, finish, Agent, history, hold_turn, open_turn,
}
use nan_itself.Agent.Engine.{with_injections}
use nan_itself.Agent.Run.{
  Env, World, ModelAnswer, streamed, broke, Outcome, done, raised, cancelled, Run, gets, modify,
  await, ◌>>=◌, continue, interrupts, interrupt, Interrupt, delivers, notes, pauses, resumes,
  suspends, kills, finishes,
}
use nan_itself.Agent.Turns.{
  Config, is_malformed, with_persona, persist, ask_model, answer_turn, think_from, think, or_retry,
  give_up, execute_call, act, with_result, inject_in, run_phases, committed_turn, commit,
  persona_from, attempt, refresh_persona, settle, complete_turn, run_turn, run_turn_task,
  after_task, try_except,
}
use nan_itself.Agent.Triple.{turns-interrupts}
use nan_itself.Agent.Once.{is_runnable, runnable}
use nan_itself.Agent.Phases.{committed_turn-keeps}
use nan_itself.Agent.Verbs.{open_turn-holds}

-- It returns, in a world of `Q`.
abbrev pub Returns : {A : Type 0} → (A → World → Type 0) → Outcome A → World → Type 0
Returns Q (done a) w = Q a w
Returns Q (raised e) w = ⊥
Returns Q cancelled w = ⊥

record Does {A : Type 0} (P : World → Type 0) (m : Run A) (Q : A → World → Type 0) : Type 0 where
  at : (w : World) → P w → Returns Q (m w).0 (m w).1

Does-bind :
    {A B : Type 0} {P : World → Type 0} (m : Run A) (f : A → Run B) {Q : A → World → Type 0}
    {R : B → World → Type 0}
    → Does P m Q
    → ((a : A) → Does (Q a) (f a) R)
    → Does P (m >>= f) R
unfolding ◌>>=◌
Does-bind {A} {B} m f {Q} {R} d k = record { at = λ w p. go (m w).0 (m w).1 (d.at w p) }
  where
    go :
        (r : Outcome A) (w : World)
        → Returns Q r w
        → Returns R (continue r f w).0 (continue r f w).1
    go (done a) w h = (k a).at w h
    go (raised e) w h = absurd h
    go cancelled w h = absurd h

-- A handler that passes on what is returned.
Does-try :
    {A : Type 0} {P : World → Type 0} {Q : A → World → Type 0} (handle : Outcome A → Run A)
    (m : Run A)
    → ((a : A) (w : World) → handle (done a) w ≡ (done a, w))
    → Does P m Q
    → Does P (try_except handle m) Q
unfolding try_except
Does-try {A} {P} {Q} handle m e d = record { at = λ w p. go (m w).0 (m w).1 (d.at w p) }
  where
    go : (r : Outcome A) (w : World) → Returns Q r w → Returns Q (handle r w).0 (handle r w).1
    go (done a) w h = subst (λ x. Returns Q x.0 x.1) (sym (e a w)) h
    go (raised x) w h = absurd h
    go cancelled w h = absurd h

-- The agent holds `t`, so many verbs have been started, and no cancellation is asked for.
pub record At (t : Turn) (vs : List VerbCall) (w : World) : Type 0 where
  pub free : w.agent.cancel_asked ≡ false
  pub held : last? w.agent.turns ≡ some t
  pub verbs : w.started_verbs ≡ vs

abbrev pub Streams : ModelAnswer → Type 0
Streams (streamed es) = Unit
Streams (broke e) = ⊥

abbrev Readable : Option String → Type 0
Readable none = ⊥
Readable (some s) = Unit

-- What happens meanwhile cancels no turn: a message, a note, a resumption, or the agent's own `finish`.
abbrev pub is_harmless : Interrupt → Bool
is_harmless pauses = false
is_harmless suspends = false
is_harmless (kills reason) = false
is_harmless _ = true

interrupt-free :
    (i : Interrupt) (a : Agent)
    → is_harmless i ≡ true
    → (interrupt i a).cancel_asked ≡ a.cancel_asked
unfolding deliver note_delta resume finish
interrupt-free (delivers m) a h = refl
interrupt-free (notes section line) a h = refl
interrupt-free resumes a h = ground arith
interrupt-free (finishes report) a h = ground arith
interrupt-free pauses a h = cc
interrupt-free suspends a h = cc
interrupt-free (kills reason) a h = cc

interrupts-free :
    (is : List Interrupt) (a : Agent)
    → All (λ i. is_harmless i ≡ true) is
    → (interrupts is a).cancel_asked ≡ a.cancel_asked
unfolding interrupts
interrupts-free [] a h = refl
interrupts-free (i ∷ is) a (h, hs) = interrupts-free is (interrupt i a) hs ∙ interrupt-free i a h

-- Nothing that the outside does stops a turn.
pub record IsCalm (env : Env) : Type 0 where
  pub harmless : (n : ℕ) → All (λ i. is_harmless i ≡ true) (env.meanwhile n)
  pub readable : (n : ℕ) → Readable (env.persona_file n)
  pub streams : (n : ℕ) → Streams (env.answer n)

module _ (env : Env) (cfg : Config) (calm : IsCalm env) where
  meanwhile-At :
      (t : Turn) (vs : List VerbCall) (w : World)
      → At t vs w
      → At t vs (record w { agent = interrupts (env.meanwhile w.tick) w.agent })
  meanwhile-At t vs w h = record {
    free = interrupts-free (env.meanwhile w.tick) w.agent (calm.harmless w.tick) ∙ h.free;
    held = ap last? (turns-interrupts (env.meanwhile w.tick) w.agent) ∙ h.held;
    verbs = h.verbs;
  }

  await-At : (t : Turn) (vs : List VerbCall) → Does (At t vs) (await env) (λ _. At t vs)
  unfolding await
  await-At t vs = record {
    at = λ w h.
        let h' = meanwhile-At t vs w h in
        rw h'.free (record { free = h'.free; held = h'.held; verbs = h'.verbs });
  }

  persist-At : (t : Turn) (vs : List VerbCall) → Does (At t vs) (persist env) (λ _. At t vs)
  unfolding persist await
  persist-At t vs = record {
    at = λ w h.
        let h' = meanwhile-At t vs w h in
        rw h'.free (record { free = h'.free; held = h'.held; verbs = h'.verbs });
  }

  hold-At : (t u : Turn) (vs : List VerbCall) → Does (At t vs) (modify (hold_turn u)) (λ _. At u vs)
  unfolding hold_turn
  hold-At t u vs = record {
    at = λ w h. record {
      free = h.free;
      held = last?-set_last u t w.agent.turns h.held;
      verbs = h.verbs;
    };
  }

  gets-At :
      {A : Type 0} (f : World → A) (t : Turn) (vs : List VerbCall)
      → Does (At t vs) (gets f) (λ _. At t vs)
  gets-At f t vs = record { at = λ w h. h }

  persona-At :
      (o : Option String) (t : Turn) (vs : List VerbCall)
      → Readable o
      → Does (At t vs) (persona_from o) (λ _. At t vs)
  persona-At none t vs r = absurd r
  persona-At (some s) t vs r = record {
    at = λ w h. elim (Bool-cases (s == w.agent.persona_last)) [
      | inl yes_ ↦ rw yes_ h
      | inr no_ ↦ rw no_ (record { free = h.free; held = h.held; verbs = h.verbs })
    ];
  }

  answer-At :
      (t u : Turn) (vs : List VerbCall) (a b n : ℕ) (m : ModelAnswer)
      → Streams m
      → Does (At t vs) (answer_turn cfg u a b n m) (λ _. At t vs)
  answer-At t u vs a b n (streamed es) s = record { at = λ w h. h }
  answer-At t u vs a b n (broke e) s = absurd s

  ask_model-At :
      (t u : Turn) (vs : List VerbCall) (retries : ℕ)
      → Does (At t vs) (ask_model env cfg u retries) (λ _. At t vs)
  unfolding ask_model history
  ask_model-At t u vs retries = Does-bind _ _ (gets-At _ t vs) λ started.
      Does-bind _ _ {Q = λ _. At t vs}
        (record { at = λ w h. record { free = h.free; held = h.held; verbs = h.verbs } })
        λ _.
          Does-bind _ _ {Q = λ _. At t vs}
            (record { at = λ w h. record { free = h.free; held = h.held; verbs = h.verbs } })
            λ _. Does-bind _ _ (await-At t vs) λ n. answer-At t u vs _ _ retries _ (calm.streams n)

  think_from-At :
      (ladder : List ℕ) (t u : Turn) (vs : List VerbCall)
      → Does (At t vs) (think_from env cfg u ladder 0) (λ _. At t vs)
  unfolding think_from
  think_from-At [] t u vs = Does-try (give_up 0) _ (λ a w. refl) (ask_model-At t u vs 0)
  think_from-At (d ∷ ladder) t u vs =
      Does-try (or_retry (await env >>= λ _. think_from env cfg u ladder 1)) _ (λ a w. refl)
        (ask_model-At t u vs 0)

  think-At : (t u : Turn) (vs : List VerbCall) → Does (At t vs) (think env cfg u) (λ _. At t vs)
  unfolding think
  think-At t u vs = think_from-At cfg.backoff t u vs

  -- The verbs that handling a call starts.
  abbrev started_by : VerbCall → List VerbCall
  started_by call = if is_runnable cfg call then call ∷ [] else []

  execute_call-At :
      (call : VerbCall) (t : Turn) (vs : List VerbCall)
      → Does (At t vs) (execute_call env cfg call) (λ _. At t (vs ++ started_by call))
  unfolding execute_call
  execute_call-At call t vs = elim (Bool-cases (is_malformed call)) [
    | inl bad ↦ rw bad (record { at = λ w h. stays w h })
    | inr good ↦ elim (Bool-cases (contains cfg.verbs call.name)) [
      | inl known ↦
          rw (good, known)
            (Does-bind _ _ {Q = λ _. At t (vs ++ call ∷ [])}
              (record {
                at = λ w h. record {
                  free = h.free;
                  held = h.held;
                  verbs = ap (λ xs. xs ++ call ∷ []) h.verbs;
                };
              })
              λ _. Does-bind _ _ (await-At t _) λ n. record { at = λ w h. h })
      | inr unknown_ ↦ rw (good, unknown_) (record { at = λ w h. stays w h })
    ]
  ]
    where
      stays : (w : World) → At t vs w → At t (vs ++ []) w
      stays w h = record { free = h.free; held = h.held; verbs = rw append-nil h.verbs }

  -- Every call is handled, and the turn keeps its calls.
  abbrev Acted : Turn → List VerbCall → Turn → World → Type 0
  Acted t vs u w = (u.verb_calls ≡ t.verb_calls) × (x : Turn) × At x vs w

  runnable-cons :
      (call : VerbCall) (calls vs : List VerbCall)
      → (vs ++ started_by call) ++ runnable cfg calls ≡ vs ++ runnable cfg (call ∷ calls)
  runnable-cons call calls vs = elim (Bool-cases (is_runnable cfg call)) [
    | inl yes_ ↦ rw yes_ (append_assoc vs (call ∷ []) (runnable cfg calls))
    | inr no_ ↦ rw no_ (ap (λ xs. xs ++ runnable cfg calls) (append-nil vs))
  ]

  act-At :
      (calls : List VerbCall) (t : Turn) (vs : List VerbCall)
      → Does (At t vs) (act env cfg calls t) (Acted t (vs ++ runnable cfg calls))
  unfolding act
  act-At [] t vs = record {
    at = λ w h. (refl, t, record { free = h.free; held = h.held; verbs = rw append-nil h.verbs });
  }
  act-At (call ∷ calls) t vs = Does-bind _ _ (gets-At _ t vs) λ started.
      Does-bind _ _ (execute_call-At call t vs) λ output. Does-bind _ _ (gets-At _ t _) λ ended.
        Does-bind _ _ (hold-At t (with_result t call output started ended) _) λ _.
          Does-bind _ _ (persist-At _ _) λ _.
            subst
              (λ xs.
                Does (At (with_result t call output started ended) (vs ++ started_by call))
                  (act env cfg calls (with_result t call output started ended)) (Acted t xs))
              (runnable-cons call calls vs)
              (act-At calls (with_result t call output started ended) (vs ++ started_by call))

  inject_in-At :
      (p : TurnPhase) (t : Turn) (vs : List VerbCall)
      → Does (At t vs) (inject_in env p t) (λ u. At u vs)
  inject_in-At observed t vs = Does-bind _ _ (await-At t vs) λ n.
      Does-bind _ _ (hold-At t (with_injections t (env.injected n).0 (env.injected n).1) vs)
        λ _. record { at = λ w h. h }
  inject_in-At injected t vs = record { at = λ w h. h }
  inject_in-At thought t vs = record { at = λ w h. h }
  inject_in-At acted t vs = record { at = λ w h. h }
  inject_in-At committed t vs = record { at = λ w h. h }

  -- The agent holds the turn, and since `vs` all of its verbs have been started.
  abbrev pub Ran : List VerbCall → Turn → World → Type 0
  Ran vs t w = At t (vs ++ runnable cfg t.verb_calls) w

  run_phases-Ran : (t : Turn) (vs : List VerbCall) → Does (At t vs) (run_phases env cfg t) (Ran vs)
  unfolding run_phases
  run_phases-Ran t vs = Does-bind _ _ (inject_in-At t.phase t vs) λ t₁.
      Does-bind _ _ (think-At t₁ t₁ vs) λ t₂. Does-bind _ _ (hold-At t₁ t₂ vs) λ _.
        Does-bind _ _ (persist-At t₂ vs) λ _. Does-bind _ _ (act-At t₂.verb_calls t₂ vs) λ t₃.
          Does-bind _ _ {Q = λ _. Ran vs t₃}
            (record {
              at = λ w (e, x, h).
                  subst
                    (λ cs.
                      At t₃ (vs ++ runnable cfg cs) (record w { agent = hold_turn t₃ w.agent }))
                    (sym e) ((hold-At x t₃ (vs ++ runnable cfg t₂.verb_calls)).at w h);
            })
            λ _. Does-bind _ _ (persist-At t₃ _) λ _. record { at = λ w h. h }

  commit-Ran :
      (t : Turn) (vs : List VerbCall)
      → Does (Ran vs t) (commit env t) (λ u w. (u.phase ≡ committed) × Ran vs u w)
  unfolding commit
  commit-Ran t vs = Does-bind _ _ (gets-At _ t _) λ death. Does-bind _ _ (gets-At _ t _) λ now.
      let (p, c) = committed_turn-keeps env cfg vs now death t in
      let u = committed_turn now death t in
      Does-bind _ _ (hold-At t u _) λ _.
        Does-bind _ _ {Q = λ _. At u (vs ++ runnable cfg t.verb_calls)}
          (record { at = λ w h. record { free = h.free; held = h.held; verbs = h.verbs } })
          λ _. Does-bind _ _ (persist-At u _) λ _. Does-bind _ _ (await-At u _) λ _.
            Does-bind _ _ {Q = λ _. At u (vs ++ runnable cfg t.verb_calls)}
              (record { at = λ w h. record { free = h.free; held = h.held; verbs = h.verbs } })
              λ _. record {
                at = λ w h. (p, subst (λ cs. At u (vs ++ runnable cfg cs) w) (sym c) h);
              }

  -- The agent holds a committed turn, and since `vs` all of its verbs have been started.
  abbrev pub Committed : List VerbCall → World → Type 0
  Committed vs w = (t : Turn) × (t.phase ≡ committed) × Ran vs t w

  attempt-Committed :
      (t : Turn) (vs : List VerbCall) → Does (At t vs) (attempt env cfg false t) (λ _. Committed vs)
  unfolding attempt refresh_persona
  attempt-Committed t vs =
      Does-bind _ _ {Q = λ _. At t vs}
        (record {
          at = λ w h. (persona-At (env.persona_file w.tick) t vs (calm.readable w.tick)).at w h;
        })
        λ read. Does-bind _ _ (hold-At t (with_persona read.1 t) vs) λ _.
          Does-bind _ _ (persist-At (with_persona read.1 t) vs) λ _.
            Does-bind _ _ (run_phases-Ran (with_persona read.1 t) vs)
              λ u. Does-bind _ _ (commit-Ran u vs) λ v. record { at = λ w (p, h). (v, p, h) }

  complete_turn-Committed :
      (t : Turn) (vs : List VerbCall)
      → Does (At t vs) (complete_turn env cfg false t) (λ _. Committed vs)
  unfolding complete_turn
  complete_turn-Committed t vs = Does-try (settle env) _ (λ u w. refl) (attempt-Committed t vs)

  task-Committed :
      (r : Outcome (Unit {0})) (w : World) (vs : List VerbCall)
      → Returns (λ _. Committed vs) r w
      → Returns (λ _. Committed vs) (after_task r w).0 (after_task r w).1
  task-Committed (done u) w vs (t, p, h) =
      (t, p, record { free = refl; held = h.held; verbs = h.verbs })
  task-Committed (raised e) w vs h = absurd h
  task-Committed cancelled w vs h = absurd h

  opened-free :
      (now limit : ℕ) (a : Agent) → (open_turn now limit a).0.cancel_asked ≡ a.cancel_asked
  unfolding open_turn
  opened-free now limit a = ground arith

  run_turn-Committed :
      (w : World)
      → (w.agent.cancel_asked ≡ false)
      → Returns (λ _. Committed w.started_verbs) (run_turn env cfg w).0 (run_turn env cfg w).1
  unfolding run_turn
  run_turn-Committed w free =
      let now = env.clock w.tick in
      let (b, t) = open_turn now cfg.history_char_limit w.agent in
      (complete_turn-Committed t w.started_verbs).at (record w { agent = b })
        (record {
          free = opened-free now cfg.history_char_limit w.agent ∙ free;
          held = open_turn-holds now cfg.history_char_limit w.agent;
          verbs = refl;
        })

  -- Where at no await the agent is paused, killed or suspended, its persona can be read, every model
  -- call streams to its end and no cancellation was asked for before, a turn that is opened runs
  -- to its end, whatever messages and notes reach the agent meanwhile and whether its verbs
  -- finish it or another task resumes it: the task returns, the agent holds a committed turn, and the
  -- verbs started are exactly the calls of that turn that parse and name a verb of the agent, in their
  -- order.
  pub run_turn_task-commits :
      (w : World)
      → (w.agent.cancel_asked ≡ false)
      → Returns
          (λ _. Committed w.started_verbs)
          (run_turn_task env cfg false w).0
          (run_turn_task env cfg false w).1
  unfolding run_turn_task try_except ◌>>=◌ await
  run_turn_task-commits w free =
      let a = record w.agent { paced = false; turn_task = true } in
      let b = interrupts (env.meanwhile w.tick) a in
      let free' : b.cancel_asked ≡ false =
        interrupts-free (env.meanwhile w.tick) a (calm.harmless w.tick) ∙ free in
      rw free' (
        task-Committed _ _ w.started_verbs
          (run_turn-Committed (record w { agent = b; tick = w.tick + 1 }) free'))
