-- ===== src/Agent/Silent.antt =====
-- nan/agent/core.py: the parts of a turn that neither hold a turn nor start a verb, the call of the
-- model among them, and what a call of the model comes back with.
use nan_itself.Base.{
  ℕ, suc, ◌+◌, String, ◌≡◌, refl, ◌∙◌, inl, inr, Option, none, some, List, [], ◌∷◌, arith,
  Bool-cases, string_eq, nat_eq,
}
use nan_itself.Turn.Model.{Turn, thought}
use nan_itself.Agent.Failure.{Exception, classify}
use nan_itself.Agent.State.{history}
use nan_itself.Agent.Engine.{with_response}
use nan_itself.Agent.Run.{
  Env, World, ModelAnswer, streamed, broke, Outcome, done, raised, cancelled, Run, pure, raise,
  gets, modify, ◌>>=◌, continue,
}
use nan_itself.Agent.Turns.{
  Config, try_except, ask_model, think_from, refresh_persona, or_retry, persona_from, answer_turn,
  exhausted, is_retryable_kind, give_up,
}
use nan_itself.Agent.Triple.{IsSilent, await-IsSilent}

module _ {A : Type 0} where
  pub pure-IsSilent : (a : A) → IsSilent (pure a)
  pure-IsSilent a = record { same = λ w. (refl, refl) }

  pub raise-IsSilent : (e : Exception) → IsSilent (raise {A = A} e)
  raise-IsSilent e = record { same = λ w. (refl, refl) }

  pub gets-IsSilent : (f : World → A) → IsSilent (gets f)
  gets-IsSilent f = record { same = λ w. (refl, refl) }

  pub try_except-IsSilent :
      (handle : Outcome A → Run A) (m : Run A)
      → ((r : Outcome A) → IsSilent (handle r))
      → IsSilent m
      → IsSilent (try_except handle m)
  unfolding try_except
  try_except-IsSilent handle m h s = record {
    same =
        λ w. let (t, v) = s.same w in let (t', v') = (h (m w).0).same (m w).1 in (t' ∙ t, v' ∙ v);
  }

module _ {A B : Type 0} where
  continue_silent :
      (f : A → Run B) (r : Outcome A) (w : World)
      → ((a : A) → IsSilent (f a))
      → ((continue r f w).1.agent.turns ≡ w.agent.turns)
        × ((continue r f w).1.started_verbs ≡ w.started_verbs)
  continue_silent f (done a) w h = (h a).same w
  continue_silent f (raised e) w h = (refl, refl)
  continue_silent f cancelled w h = (refl, refl)

  pub bind-IsSilent :
      (m : Run A) (f : A → Run B) → IsSilent m → ((a : A) → IsSilent (f a)) → IsSilent (m >>= f)
  unfolding ◌>>=◌
  bind-IsSilent m f s h = record {
    same = λ w.
        let (t, v) = s.same w in
        let (t', v') = continue_silent f (m w).0 (m w).1 h in (t' ∙ t, v' ∙ v);
  }

pub history-IsSilent : IsSilent (modify (λ a. (history a).0))
unfolding history
history-IsSilent = record { same = λ w. (refl, refl) }

persona_same :
    (o : Option String) (w : World)
    → ((persona_from o w).1.agent.turns ≡ w.agent.turns)
      × ((persona_from o w).1.started_verbs ≡ w.started_verbs)
persona_same none w = (refl, refl)
persona_same (some text) w = ground arith

pub refresh_persona-IsSilent : (env : Env) → IsSilent (refresh_persona env)
unfolding refresh_persona
refresh_persona-IsSilent env = record { same = λ w. persona_same (env.persona_file w.tick) w }

module _ (env : Env) (cfg : Config) where
  answer-IsSilent : (t : Turn) (a b n : ℕ) (m : ModelAnswer) → IsSilent (answer_turn cfg t a b n m)
  answer-IsSilent t a b n (streamed es) = record { same = λ w. (refl, refl) }
  answer-IsSilent t a b n (broke e) = record { same = λ w. (refl, refl) }

  ask_model-IsSilent : (t : Turn) (retries : ℕ) → IsSilent (ask_model env cfg t retries)
  unfolding ask_model
  ask_model-IsSilent t retries =
      bind-IsSilent _ _ (gets-IsSilent (λ w. env.clock w.tick)) λ started.
        bind-IsSilent _ _ history-IsSilent λ _.
          bind-IsSilent _ _ (record { same = λ w. (refl, refl) })
            λ _.
              bind-IsSilent _ _ (await-IsSilent env)
                λ n. answer-IsSilent t started (env.clock (n + 1)) retries (env.answer n)

  retry-IsSilent :
      (again : Run Turn) (r : Outcome Turn) → IsSilent again → IsSilent (or_retry again r)
  retry-IsSilent again (done t) s = pure-IsSilent t
  retry-IsSilent again cancelled s = record { same = λ w. (refl, refl) }
  retry-IsSilent again (raised e) s = elim (Bool-cases (is_retryable_kind (classify e))) [
    | inl yes_ ↦ rw yes_ s
    | inr no_ ↦ rw no_ (raise-IsSilent e)
  ]

  give_up-IsSilent : (retries : ℕ) (r : Outcome Turn) → IsSilent (give_up retries r)
  give_up-IsSilent retries (done t) = pure-IsSilent t
  give_up-IsSilent retries cancelled = record { same = λ w. (refl, refl) }
  give_up-IsSilent retries (raised e) = elim (Bool-cases (is_retryable_kind (classify e))) [
    | inl yes_ ↦ rw yes_ (raise-IsSilent (exhausted retries e))
    | inr no_ ↦ rw no_ (raise-IsSilent e)
  ]

  pub think_from-IsSilent :
      (t : Turn) (ladder : List ℕ) (retries : ℕ) → IsSilent (think_from env cfg t ladder retries)
  unfolding think_from
  think_from-IsSilent t [] retries =
      try_except-IsSilent _ _ (give_up-IsSilent retries) (ask_model-IsSilent t retries)
  think_from-IsSilent t (d ∷ ladder) retries =
      try_except-IsSilent _ _
        (λ r. retry-IsSilent _ r (
          bind-IsSilent _ _ (await-IsSilent env) (λ _. think_from-IsSilent t ladder (suc retries))))
        (ask_model-IsSilent t retries)

  -- A turn that comes back from the model is in the phase `thought`.
  abbrev pub Thought : Outcome Turn → Type 0
  Thought (done t) = t.phase ≡ thought
  Thought _ = Unit

  answer-Thought :
      (t : Turn) (a b n : ℕ) (m : ModelAnswer) (w : World) → Thought (answer_turn cfg t a b n m w).0
  unfolding with_response
  answer-Thought t a b n (streamed es) w = refl
  answer-Thought t a b n (broke e) w = tt

  continue-Thought :
      (t : Turn) (a retries : ℕ) (r : Outcome ℕ) (w : World)
      → Thought
          (continue r (λ n. answer_turn cfg t a (env.clock (n + 1)) retries (env.answer n)) w).0
  continue-Thought t a retries (done n) w =
      answer-Thought t a (env.clock (n + 1)) retries (env.answer n) w
  continue-Thought t a retries (raised e) w = tt
  continue-Thought t a retries cancelled w = tt

  ask_model-Thought :
      (t : Turn) (retries : ℕ) (w : World) → Thought (ask_model env cfg t retries w).0
  unfolding ask_model ◌>>=◌
  ask_model-Thought t retries w = continue-Thought t (env.clock w.tick) retries _ _

  retry-Thought :
      (again : Run Turn) (r : Outcome Turn) (w : World)
      → Thought r
      → ((w' : World) → Thought (again w').0)
      → Thought (or_retry again r w).0
  retry-Thought again (done t) w h k = h
  retry-Thought again cancelled w h k = tt
  retry-Thought again (raised e) w h k = elim (Bool-cases (is_retryable_kind (classify e))) [
    | inl yes_ ↦ rw yes_ (k w)
    | inr no_ ↦ rw no_ tt
  ]

  give_up-Thought :
      (retries : ℕ) (r : Outcome Turn) (w : World) → Thought r → Thought (give_up retries r w).0
  give_up-Thought retries (done t) w h = h
  give_up-Thought retries cancelled w h = tt
  give_up-Thought retries (raised e) w h = elim (Bool-cases (is_retryable_kind (classify e))) [
    | inl yes_ ↦ rw yes_ tt
    | inr no_ ↦ rw no_ tt
  ]

  wait-Thought :
      (m : ℕ → Run Turn) (r : Outcome ℕ) (w : World)
      → ((n : ℕ) (w' : World) → Thought (m n w').0)
      → Thought (continue r m w).0
  wait-Thought m (done n) w h = h n w
  wait-Thought m (raised e) w h = tt
  wait-Thought m cancelled w h = tt

  pub think_from-Thought :
      (t : Turn) (ladder : List ℕ) (retries : ℕ) (w : World)
      → Thought (think_from env cfg t ladder retries w).0
  unfolding think_from try_except ◌>>=◌
  think_from-Thought t [] retries w = give_up-Thought retries _ _ (ask_model-Thought t retries w)
  think_from-Thought t (d ∷ ladder) retries w =
      retry-Thought _ _ _ (ask_model-Thought t retries w)
        λ w'. wait-Thought _ _ _ λ n w''. think_from-Thought t ladder (suc retries) w''
