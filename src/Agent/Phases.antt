-- ===== src/Agent/Phases.antt =====
-- nan/agent/core.py: which verbs the phases of a turn start, from its injections to its commit.
use nan_itself.Base.{
  ℕ, ◌≡◌, refl, sym, ap, ◌∙◌, subst, inl, inr, true, false, Option, none, some, List, [], ◌∷◌, ◌++◌,
  append_assoc, arith, if◌then◌else◌, Bool-cases, contains, string_eq, nat_eq,
}
use nan_itself.Llm.Types.{VerbCall}
use nan_itself.Turn.Model.{Death, Turn, TurnPhase, observed, injected, thought, acted, committed}
use nan_itself.Turn.Render.{freeze_turn}
use nan_itself.Agent.Run.{Env, World, Outcome, done, raised, cancelled, Run}
use nan_itself.Agent.Turns.{
  Config, is_malformed, persist, think, execute_call, act, with_result, inject_in, run_phases,
  committed_turn,
}
use nan_itself.Agent.Triple.{
  View, Ends, Triple, Triple-silent, Triple-pure, Triple-bind, await-IsSilent, persist-IsSilent,
}
use nan_itself.Agent.Silent.{Thought, gets-IsSilent, think_from-IsSilent, think_from-Thought}
use nan_itself.Agent.Once.{
  is_runnable, runnable, StartedIn, AtMostOnce, Early, Holds, Ready, Going, Early→AtMostOnce,
  Ready→AtMostOnce, Going→AtMostOnce, Going→Ready, Triple-hold, hold-Early, Early-hold, hold-Going,
  Ready-hold,
}

module _ (env : Env) (cfg : Config) (base : List VerbCall) where
  -- What may be cancelled or raise anywhere, with the verbs started fitting the turn held.
  abbrev pub Safe : {A : Type 0} → View → Run A → (A → View) → Type 0
  Safe P m Q = Triple (AtMostOnce cfg base) P m Q

  inject_in-Early :
      (p : TurnPhase) (t : Turn) → Safe (Early cfg base) (inject_in env p t) (λ _. Early cfg base)
  inject_in-Early observed t =
      Triple-bind _ _ (Triple-silent _ (Early→AtMostOnce cfg base) (await-IsSilent env)) λ n.
        Triple-bind _ _ (Triple-hold cfg base _ (hold-Early cfg base _))
          λ _. Triple-pure _ (λ ts vs h. h)
  inject_in-Early injected t = Triple-pure t (λ ts vs h. h)
  inject_in-Early thought t = Triple-pure t (λ ts vs h. h)
  inject_in-Early acted t = Triple-pure t (λ ts vs h. h)
  inject_in-Early committed t = Triple-pure t (λ ts vs h. h)

  -- What the model's answer leaves to hold.
  abbrev Answered : Turn → View
  Answered t ts vs = (t.phase ≡ thought) × Early cfg base ts vs

  answered :
      (r : Outcome Turn) (w : World)
      → Thought env cfg r
      → Early cfg base w.agent.turns w.started_verbs
      → Ends Answered (AtMostOnce cfg base) r w
  answered (done t) w h e = (h, e)
  answered (raised x) w h e = Early→AtMostOnce cfg base _ _ e
  answered cancelled w h e = Early→AtMostOnce cfg base _ _ e

  think-Answered : (t : Turn) → Safe (Early cfg base) (think env cfg t) Answered
  unfolding think
  think-Answered t = record {
    at = λ w e.
        let (turns, verbs) = (think_from-IsSilent env cfg t cfg.backoff 0).same w in
        answered _ _ (think_from-Thought env cfg t cfg.backoff 0 w) (rw (turns, verbs) e);
  }

  skipped :
      (call : VerbCall) (calls : List VerbCall) (t : Turn) (ts : List Turn) (vs : List VerbCall)
      → (is_runnable cfg call ≡ false)
      → Going cfg base (call ∷ calls) t ts vs
      → Going cfg base calls t ts vs
  skipped call calls t ts vs no_ g = record {
    held = g.held;
    at_verbs = g.at_verbs;
    ran = g.ran;
    since = g.since;
    left =
        g.left
        ∙ ap (λ b. g.ran ++ (if b then call ∷ runnable cfg calls else runnable cfg calls)) no_;
  }

  counted :
      (call : VerbCall) (calls : List VerbCall) (t : Turn) (ts : List Turn) (vs : List VerbCall)
      → (is_runnable cfg call ≡ true)
      → Going cfg base (call ∷ calls) t ts vs
      → Going cfg base calls t ts (vs ++ call ∷ [])
  counted call calls t ts vs yes_ g = record {
    held = g.held;
    at_verbs = g.at_verbs;
    ran = g.ran ++ call ∷ [];
    since = ap (λ xs. xs ++ call ∷ []) g.since ∙ append_assoc base g.ran (call ∷ []);
    left =
        g.left
        ∙ ap (λ b. g.ran ++ (if b then call ∷ runnable cfg calls else runnable cfg calls)) yes_
        ∙ sym (append_assoc g.ran (call ∷ []) (runnable cfg calls));
  }

  execute_call-Going :
      (call : VerbCall) (calls : List VerbCall) (t : Turn)
      → Safe
          (Going cfg base (call ∷ calls) t)
          (execute_call env cfg call)
          (λ _. Going cfg base calls t)
  unfolding execute_call
  execute_call-Going call calls t = elim (Bool-cases (is_malformed call)) [
    | inl bad ↦ rw bad (Triple-pure _ (λ ts vs. skipped call calls t ts vs (ground arith)))
    | inr good ↦ elim (Bool-cases (contains cfg.verbs call.name)) [
      | inl known ↦
          rw (good, known)
            (Triple-bind _ _ (record { at = λ w. counted call calls t _ _ (ground arith) })
              λ _.
                Triple-bind _ _
                  (Triple-silent _ (Going→AtMostOnce cfg base calls t) (await-IsSilent env))
                  λ n. Triple-pure _ (λ ts vs h. h))
      | inr unknown_ ↦
          rw (good, unknown_) (Triple-pure _ (λ ts vs. skipped call calls t ts vs (ground arith)))
    ]
  ]

  pub persisting :
      {P : View}
      → ((ts : List Turn) (vs : List VerbCall) → P ts vs → AtMostOnce cfg base ts vs)
      → Safe P (persist env) (λ _. P)
  persisting h = Triple-silent _ h (persist-IsSilent env)

  act-Ready :
      (calls : List VerbCall) (t : Turn)
      → Safe
          (Going cfg base calls t)
          (act env cfg calls t)
          (λ u ts vs. (u.phase ≡ acted) × Ready cfg base u ts vs)
  unfolding act
  act-Ready [] t = Triple-pure _ (λ ts vs g. (refl, Going→Ready cfg base [] t _ ts vs refl g))
  act-Ready (call ∷ calls) t =
      Triple-bind _ _ (Triple-silent _ (Going→AtMostOnce cfg base _ t) (gets-IsSilent _)) λ started.
        Triple-bind _ _ (execute_call-Going call calls t) λ output.
          Triple-bind _ _ (Triple-silent _ (Going→AtMostOnce cfg base calls t) (gets-IsSilent _))
            λ ended.
              Triple-bind _ _
                (Triple-hold cfg base _ (λ ts vs. hold-Going cfg base calls t _ ts vs refl refl))
                λ _.
                  Triple-bind _ _ (persisting (Going→AtMostOnce cfg base calls _))
                    λ _. act-Ready calls (with_result t call output started ended)

  ready :
      (t : Turn) (ts : List Turn) (vs : List VerbCall)
      → (t.phase ≡ acted)
      → Holds cfg base t ts vs
      → Ready cfg base t ts vs
  ready t ts vs p h = record {
    old = t;
    held = h.held;
    fits = h.fits;
    next = subst (λ q. StartedIn cfg base q t.verb_calls vs) p h.fits;
  }

  pub run_phases-Ready : (t : Turn) → Safe (Early cfg base) (run_phases env cfg t) (Ready cfg base)
  unfolding run_phases
  run_phases-Ready t = Triple-bind _ _ (inject_in-Early t.phase t) λ t₁.
      Triple-bind _ _ (think-Answered t₁) λ t₂.
        Triple-bind _ _ (Triple-hold cfg base t₂ (λ ts vs (p, h). Early-hold cfg base t₂ ts vs p h))
          λ _. Triple-bind _ _ (persisting (Going→AtMostOnce cfg base t₂.verb_calls t₂)) λ _.
            Triple-bind _ _ (act-Ready t₂.verb_calls t₂) λ t₃.
              Triple-bind _ _
                (Triple-hold cfg base t₃ {Q = λ ts vs. Ready cfg base t₃ ts vs} (λ ts vs (p, r).
                  ready t₃ _ _ p
                    (Ready-hold cfg base t₃ ts vs (λ e. ground arith) (λ e. ground arith) r)))
                λ _.
                  Triple-bind _ _ (persisting (Ready→AtMostOnce cfg base t₃))
                    λ _. Triple-pure t₃ (λ ts vs h. h)

  pub committed_turn-keeps :
      (now : ℕ) (d : Option Death) (t : Turn)
      → ((committed_turn now d t).phase ≡ committed)
        × ((committed_turn now d t).verb_calls ≡ t.verb_calls)
  unfolding committed_turn freeze_turn
  committed_turn-keeps now none t = ground arith
  committed_turn-keeps now (some d) t = ground arith
