-- ===== src/Agent/Resumption.antt =====
-- nan/agent/core.py: resuming a turn that the model has answered starts no verb again.
use nan_itself.Base.{
  String, ◌≡◌, refl, sym, ap, ◌∙◌, inl, inr, Bool, true, false, not, ◌&&◌, Option, none, some, List,
  arith, Bool-cases, string_eq, nat_eq, last?,
}
use nan_itself.Llm.Types.{VerbCall}
use nan_itself.Turn.Model.{Turn, TurnPhase, observed, injected, thought, acted, committed, noted}
use nan_itself.Agent.Failure.{Exception}
use nan_itself.Agent.State.{Agent, hold_turn, resident_turn, record_delta, open_of, is_exiting}
use nan_itself.Agent.Run.{
  Env, World, Outcome, done, raised, cancelled, Run, pure, modify, await, ◌>>=◌,
}
use nan_itself.Agent.Turns.{
  Config, with_persona, persist, resume_in, commit, attempt, fail_turn, park, settle, complete_turn,
  resume_turn, resume_at, run_turn_task, after_task, try_except,
}
use nan_itself.Agent.Triple.{
  View, Ends, Triple, IsSilent, Triple-silent, Triple-pure, Triple-bind, Triple-try, await-IsSilent,
  persist-IsSilent,
}
use nan_itself.Agent.Silent.{gets-IsSilent, refresh_persona-IsSilent}
use nan_itself.Agent.Verbs.{whichever, continue-world, after_task-turns}

-- The phases of a turn that the model has answered.
abbrev pub is_answered : TurnPhase → Bool
is_answered observed = false
is_answered injected = false
is_answered _ = true

module _ (env : Env) (cfg : Config) (base : List VerbCall) where
  abbrev Same : View
  Same ts vs = vs ≡ base

  abbrev Quiet : {A : Type 0} → Run A → Type 0
  Quiet m = Triple Same Same m (λ _. Same)

  silent : {A : Type 0} {m : Run A} → IsSilent m → Quiet m
  silent s = Triple-silent _ (λ ts vs h. h) s

  changes : (f : Agent → Agent) → Quiet (modify f)
  changes f = record { at = λ w h. h }

  then_ :
      {A B : Type 0} {m : Run A} {f : A → Run B}
      → Quiet m
      → ((a : A) → Quiet (f a))
      → Quiet (m >>= f)
  then_ {m = m} {f} q k = Triple-bind m f q k

  finally : {A : Type 0} (a : A) → Quiet (pure a)
  finally a = Triple-pure a (λ ts vs h. h)

  commit-Quiet : (t : Turn) → Quiet (commit env t)
  unfolding commit
  commit-Quiet t = then_ (silent (gets-IsSilent _)) λ death. then_ (silent (gets-IsSilent _)) λ now.
      then_ (changes _) λ _. then_ (changes _) λ _. then_ (silent (persist-IsSilent env)) λ _.
        then_ (silent (await-IsSilent env)) λ _. then_ (record { at = λ w h. h }) λ _. finally _

  resume_in-Quiet :
      (p : TurnPhase) (t : Turn) → (is_answered p ≡ true) → Quiet (resume_in env cfg p t)
  resume_in-Quiet observed t h = ground arith
  resume_in-Quiet injected t h = ground arith
  resume_in-Quiet thought t h = record { at = λ w k. k }
  resume_in-Quiet acted t h = record { at = λ w k. k }
  resume_in-Quiet committed t h = record { at = λ w k. k }

  persona-phase : (o : Option String) (t : Turn) → (with_persona o t).phase ≡ t.phase
  persona-phase none t = refl
  persona-phase (some s) t = refl

  attempt-Quiet : (t : Turn) → (is_answered t.phase ≡ true) → Quiet (attempt env cfg true t)
  unfolding attempt
  attempt-Quiet t h = then_ (silent (refresh_persona-IsSilent env)) λ read. then_ (changes _) λ _.
      then_ (silent (persist-IsSilent env)) λ _.
        then_ (resume_in-Quiet _ _ (rw (persona-phase read.1 t) h))
          λ u. then_ (commit-Quiet u) λ _. finally tt

  fail_turn-Quiet : (e : Exception) → Quiet (fail_turn env e)
  unfolding fail_turn
  fail_turn-Quiet e = then_ (changes _) λ _. then_ (silent (persist-IsSilent env)) λ _. changes _

  park-Quiet : Quiet (park env)
  unfolding park
  park-Quiet = record {
    at = λ w h. elim (Bool-cases (not (is_exiting w.agent) && w.agent.pause_cancel)) [
      | inl yes_ ↦ rw yes_ (parking.at w h)
      | inr no_ ↦ rw no_ h
    ];
  }
    where
      parking : Quiet (modify (record_delta "paused" "agent") >>= λ _. persist env >>= λ _. pure tt)
      parking = then_ (changes _) λ _. then_ (silent (persist-IsSilent env)) λ _. finally tt

  settle-Quiet :
      (r : Outcome (Unit {0})) (w : World)
      → Ends (λ _. Same) Same r w
      → Ends (λ _. Same) Same (settle env r w).0 (settle env r w).1
  settle-Quiet (done u) w h = h
  settle-Quiet cancelled w h = (then_ park-Quiet (λ _. record { at = λ w h. h })).at w h
  settle-Quiet (raised e) w h = (fail_turn-Quiet e).at w h

  complete_turn-Quiet :
      (t : Turn) → (is_answered t.phase ≡ true) → Quiet (complete_turn env cfg true t)
  unfolding complete_turn
  complete_turn-Quiet t h = Triple-try (settle env) _ settle-Quiet (attempt-Quiet t h)

resume_at-same :
    (env : Env) (cfg : Config) (o : Option Turn) (w : World)
    → ((t : Turn) → (o ≡ some t) → is_answered t.phase ≡ true)
    → (resume_at env cfg o w).1.started_verbs ≡ w.started_verbs
unfolding noted
resume_at-same env cfg none w h = refl
resume_at-same env cfg (some t) w h =
    let t' = noted t "resumed" "agent" in
    whichever (complete_turn env cfg true t') (λ ts vs. vs ≡ w.started_verbs)
      (λ ts vs. vs ≡ w.started_verbs) (record w { agent = hold_turn t' w.agent })
      (complete_turn-Quiet env cfg w.started_verbs t' (h t refl)) refl

task-same :
    (m : Run (Unit {0})) (w : World)
    → (try_except after_task m w).1.started_verbs ≡ (m w).1.started_verbs
unfolding try_except
task-same m w = (after_task-turns (m w).0 (m w).1).1

-- A turn that is open and that the model has answered is resumed: no verb is started, neither one
-- that was started before nor one that was not, however the attempt ends.
pub resume_task-starts_none :
    (env : Env) (cfg : Config) (w : World) (t : Turn)
    → (resident_turn w.agent ≡ some t)
    → (is_answered t.phase ≡ true)
    → (run_turn_task env cfg true w).1.started_verbs ≡ w.started_verbs
unfolding run_turn_task resume_turn resident_turn ◌>>=◌
resume_task-starts_none env cfg w t held h =
    let w₀ = record w { agent = record w.agent { paced = false; turn_task = true } } in
    let w' = (await env w₀).1 in
    let (ts, vs) = (await-IsSilent env).same w₀ in
    task-same (await env >>= λ _. resume_turn env cfg) w₀
    ∙ continue-world (await env w₀).0 (resume_turn env cfg)
        (λ (v : World). v.started_verbs ≡ w.started_verbs) w' vs
        (resume_at-same env cfg (open_of (last? w'.agent.turns)) w'
            (λ u e. carried (sym held ∙ ap (λ x. open_of (last? x)) (sym ts) ∙ e))
          ∙ vs)
  where
    carried : {u : Turn} → (some t ≡ some u) → is_answered u.phase ≡ true
    carried e = cc (e, h)
