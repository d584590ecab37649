-- ===== src/Agent/Triple.antt =====
-- Rules for what a run does to the agent's turns and to the list of the verbs started. A view is a
-- predicate on these two; every await leaves them as they are.
use nan_itself.Agent.Run.{
  continue, Env, World, Outcome, done, raised, cancelled, Run, pure, Interrupt, interrupt,
  interrupts, await, ◌>>=◌,
}
use nan_itself.Base.{◌≡◌, refl, ◌∙◌, List, [], ◌∷◌, arith, string_eq, nat_eq}
use nan_itself.Llm.Types.{VerbCall}
use nan_itself.Turn.Model.{Turn}
use nan_itself.Agent.State.{
  Agent, deliver, note_delta, pause, resume, request_death, finish, suspend,
}
use nan_itself.Agent.Turns.{try_except, persist}

abbrev pub View : Type 1
View = List Turn → List VerbCall → Type 0

abbrev pub Ends : {A : Type 0} → (A → View) → View → Outcome A → World → Type 0
Ends Q E (done a) w = Q a w.agent.turns w.started_verbs
Ends Q E (raised e) w = E w.agent.turns w.started_verbs
Ends Q E cancelled w = E w.agent.turns w.started_verbs

-- From a world of the view `P`, `m` ends in one of `Q` if it returns, and of `E` if it is cancelled
-- or raises.
pub record Triple {A : Type 0} (E P : View) (m : Run A) (Q : A → View) : Type 0 where
  pub at : (w : World) → P w.agent.turns w.started_verbs → Ends Q E (m w).0 (m w).1

-- What leaves the turns and the started verbs as they are.
pub record IsSilent {A : Type 0} (m : Run A) : Type 0 where
  pub same :
      (w : World)
      → ((m w).1.agent.turns ≡ w.agent.turns) × ((m w).1.started_verbs ≡ w.started_verbs)

Ends-same :
    {A : Type 0} (P E : View) (r : Outcome A) (w : World)
    → ((ts : List Turn) (vs : List VerbCall) → P ts vs → E ts vs)
    → P w.agent.turns w.started_verbs
    → Ends (λ _. P) E r w
Ends-same P E (done a) w h p = p
Ends-same P E (raised e) w h p = h _ _ p
Ends-same P E cancelled w h p = h _ _ p

module _ {A : Type 0} {E P : View} where
  pub Triple-silent :
      (m : Run A)
      → ((ts : List Turn) (vs : List VerbCall) → P ts vs → E ts vs)
      → IsSilent m
      → Triple E P m (λ _. P)
  Triple-silent m h s = record {
    at = λ w p.
        let (turns, verbs) = s.same w in Ends-same P E (m w).0 (m w).1 h (rw (turns, verbs) p);
  }

  pub Triple-pure :
      (a : A) {Q : A → View}
      → ((ts : List Turn) (vs : List VerbCall) → P ts vs → Q a ts vs)
      → Triple E P (pure a) Q
  Triple-pure a h = record { at = λ w p. h _ _ p }

  pub Triple-weaken :
      {m : Run A} {P' : View} {Q Q' : A → View}
      → ((ts : List Turn) (vs : List VerbCall) → P' ts vs → P ts vs)
      → ((a : A) (ts : List Turn) (vs : List VerbCall) → Q a ts vs → Q' a ts vs)
      → Triple E P m Q
      → Triple E P' m Q'
  Triple-weaken {m} {P'} {Q} {Q'} pre post t = record {
    at = λ w p. go (m w).0 (m w).1 (t.at w (pre _ _ p));
  }
    where
      go : (r : Outcome A) (w : World) → Ends Q E r w → Ends Q' E r w
      go (done a) w e = post a _ _ e
      go (raised x) w e = e
      go cancelled w e = e

module _ {A B : Type 0} {E P : View} where
  pub Triple-bind :
      (m : Run A) (f : A → Run B) {Q : A → View} {R : B → View}
      → Triple E P m Q
      → ((a : A) → Triple E (Q a) (f a) R)
      → Triple E P (m >>= f) R
  unfolding ◌>>=◌
  Triple-bind m f {Q} {R} tm tf = record { at = λ w p. go (m w).0 (m w).1 (tm.at w p) }
    where
      go :
          (r : Outcome A) (w : World)
          → Ends Q E r w
          → Ends R E (continue r f w).0 (continue r f w).1
      go (done a) w e = (tf a).at w e
      go (raised x) w e = e
      go cancelled w e = e

module _ {A : Type 0} where
  -- A handler that keeps the view `E` whatever it is handed.
  pub Triple-try :
      {E P : View} {Q R : A → View} (handle : Outcome A → Run A) (m : Run A)
      → ((r : Outcome A) (w : World) → Ends Q E r w → Ends R E (handle r w).0 (handle r w).1)
      → Triple E P m Q
      → Triple E P (try_except handle m) R
  unfolding try_except
  Triple-try handle m h t = record { at = λ w p. h (m w).0 (m w).1 (t.at w p) }

pub turns-interrupts : (is : List Interrupt) (a : Agent) → (interrupts is a).turns ≡ a.turns
unfolding interrupts
turns-interrupts [] a = refl
turns-interrupts (i ∷ is) a = turns-interrupts is (interrupt i a) ∙ one i
  where
    one : (i : Interrupt) → (interrupt i a).turns ≡ a.turns
    one i = unfold deliver note_delta pause resume suspend request_death finish in ground arith

pub await-IsSilent : (env : Env) → IsSilent (await env)
unfolding await
await-IsSilent env = record {
  same = λ w. ground (arith, turns-interrupts (env.meanwhile w.tick) w.agent);
}

pub persist-IsSilent : (env : Env) → IsSilent (persist env)
unfolding persist await
persist-IsSilent env = record {
  same = λ w. ground (arith, turns-interrupts (env.meanwhile w.tick) w.agent);
}
