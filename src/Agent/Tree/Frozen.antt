-- ===== src/Agent/Tree/Frozen.antt =====
-- nan/agent/core.py: who is frozen after `pause`, and who after `resume`.
use nan_itself.Base.{
  suc, String, ◌≡◌, refl, sym, ap, ◌∙◌, Bool, true, false, not, ◌&&◌, Option, none, some, [], arith,
  contains, string_eq, nat_eq, length,
}
use nan_itself.Base.Dict.{lookup}
use nan_itself.Agent.State.{Agent, pause, resume, is_exiting, freeze}
use nan_itself.Agent.Tree.{Agents, cascade, stops_pause, pause_tree, stops_resume, resume_tree}
use nan_itself.Agent.Tree.Keep.{view_at, views, Keeps, cascade-views}
use nan_itself.Agent.Tree.Cascade.{
  kids, test_at, done, wants, IsClosed, cascade-IsClosed, cascade-done, cascade-kids,
}

-- The agents that hang on `i` by agents that `via` accepts, `i` first.
pub data Below (via : Agent → Bool) (s : Agents) (i : String) : String → Type 0 where
  itself : (d : String) (a : Agent) → d ≡ i → lookup d s ≡ some a → via a ≡ true → Below via s i d
  child :
      (d c : String) (a : Agent)
      → Below via s i d
      → contains (kids s d) c ≡ true
      → lookup c s ≡ some a
      → via a ≡ true
      → Below via s i c

abbrev pub lives : Agent → Bool
lives a = not (is_exiting a)

-- `paused`, of whoever has an id.
unfoldable pub is_paused : Agents → String → Bool
is_paused s i = test_at false (λ a. a.paused) (lookup i s)

-- A living agent that is frozen.
abbrev pub is_frozen : Agent → Bool
is_frozen a = a.paused && not (is_exiting a)

-- The children of a frozen agent are frozen, or leaving.
abbrev pub IsFrozenBelow : Agents → Type 0
IsFrozenBelow = IsClosed stops_pause is_frozen []

-- The children of an agent that is not frozen are not frozen.
abbrev pub IsFreeBelow : Agents → Type 0
IsFreeBelow = IsClosed stops_resume stops_resume []

module _ (stops needs via : Agent → Bool) (s : Agents) (i : String) where
  Below-agent :
      (d : String) → Below via s i d → (a : Agent) × (lookup d s ≡ some a) × (via a ≡ true)
  Below-agent _ (itself d a e at v) = (a, at, v)
  Below-agent _ (child b d a up m at v) = (a, at, v)

  done-stops :
      (d : String) (a : Agent) → lookup d s ≡ some a → done stops needs s d ≡ true → stops a ≡ true
  unfolding done
  done-stops d a at h = sym (ap (test_at true stops) at) ∙ h

  -- What is closed, and done at `i`, is done below `i`.
  Below-done :
      (d : String)
      → ((a : Agent) → via a ≡ true → stops a ≡ true → needs a ≡ true)
      → IsClosed stops needs [] s
      → done stops needs s i ≡ true
      → Below via s i d
      → done stops needs s d ≡ true
  unfolding wants IsClosed
  Below-done _ h k top (itself d a e at v) = ap (done stops needs s) e ∙ top
  Below-done _ h k top (child b d a up m at v) =
      let (a', at', v') = Below-agent b up in
      let stop = done-stops b a' at' (Below-done b h k top up) in
      k b d (ap (test_at false needs) at' ∙ h a' v' stop) refl m

  Below-stops :
      (d : String)
      → ((a : Agent) → via a ≡ true → stops a ≡ true → needs a ≡ true)
      → IsClosed stops needs [] s
      → done stops needs s i ≡ true
      → Below via s i d
      → (a : Agent) × (lookup d s ≡ some a) × (via a ≡ true) × (stops a ≡ true)
  Below-stops d h k top b =
      let (a, at, v) = Below-agent d b in (a, at, v, done-stops d a at (Below-done d h k top b))

-- An agent that `via` accepts, by what is seen of it.
via-at :
    (via : Agent → Bool) (o : Option Agent)
    → view_at via o ≡ some true
    → (a : Agent) × (o ≡ some a) × (via a ≡ true)
via-at via none e = absurd (ground arith)
via-at via (some a) e = (a, refl, ground arith)

moved-at :
    (via : Agent → Bool) (s s' : Agents) (j : String) (a : Agent)
    → views via s' ≡ views via s
    → lookup j s ≡ some a
    → via a ≡ true
    → (b : Agent) × (lookup j s' ≡ some b) × (via b ≡ true)
unfolding views
moved-at via s s' j a e at v =
    via-at via (lookup j s')
      (ap (λ (f : String → Option Bool). f j) e ∙ ap (view_at via) at ∙ ap some v)

-- What hangs below `i` still does where neither the children nor `via` have changed.
Below-moves :
    (via : Agent → Bool) (s s' : Agents) (i d : String)
    → ((j : String) → kids s' j ≡ kids s j)
    → views via s' ≡ views via s
    → Below via s i d
    → Below via s' i d
Below-moves via s s' i _ k e (itself d a same at v) =
    let (b, at', v') = moved-at via s s' d a e at v in itself d b same at' v'
Below-moves via s s' i _ k e (child d c a up m at v) =
    let (b, at', v') = moved-at via s s' c a e at v in
    child d c b (Below-moves via s s' i d k e up) (ap (λ l. contains l c) (k d) ∙ m) at' v'

pause-lives : Keeps lives pause
unfolding pause freeze
pause-lives a = ground arith

pause-stops : (a : Agent) → stops_pause (pause a) ≡ true
unfolding pause freeze
pause-stops a = ground arith

pause-children : (a : Agent) → (pause a).children ≡ a.children
unfolding pause freeze
pause-children a = ground arith

resume-stops : (a : Agent) → stops_resume (resume a) ≡ true
unfolding resume
resume-stops a = ground arith

resume-children : (a : Agent) → (resume a).children ≡ a.children
unfolding resume
resume-children a = ground arith

-- Where the children of frozen agents are frozen or leaving, `pause` keeps it so, and every agent that hangs
-- below the paused one by living agents, itself among them, is frozen afterwards.
pub pause_tree-IsFrozenBelow :
    (s : Agents) (i : String)
    → IsFrozenBelow s
    → IsFrozenBelow (pause_tree i s)
      × ((d : String) → Below lives s i d → is_paused (pause_tree i s) d ≡ true)
unfolding pause_tree is_paused
pause_tree-IsFrozenBelow s i k =
    let k' = cascade-IsClosed stops_pause is_frozen pause pause-stops pause-children i s k in
    let top = cascade-done stops_pause is_frozen pause pause-stops pause-children i s k in
    (
      k',
      λ d below.
          let b =
            Below-moves lives s (cascade stops_pause pause (suc (length s)) i s) i d
              (cascade-kids stops_pause is_frozen pause pause-stops pause-children i s k)
              (cascade-views lives stops_pause pause (suc (length s)) i s pause-lives) below in
          let (a, at, v, stop) =
            Below-stops stops_pause is_frozen lives (cascade stops_pause pause (suc (length s)) i s)
              i d (λ a v p. ground arith) k' top b in
          rw at (ground arith),
    )

-- Where the children of agents that are not frozen are not frozen, `resume` keeps it so, and no agent
-- that hangs below the resumed one, itself among them, is frozen afterwards.
pub resume_tree-IsFreeBelow :
    (s : Agents) (i : String)
    → IsFreeBelow s
    → IsFreeBelow (resume_tree i s)
      × ((d : String) → Below (λ a. true) s i d → is_paused (resume_tree i s) d ≡ false)
unfolding resume_tree is_paused
resume_tree-IsFreeBelow s i k =
    let k' = cascade-IsClosed stops_resume stops_resume resume resume-stops resume-children i s k in
    let top = cascade-done stops_resume stops_resume resume resume-stops resume-children i s k in
    (
      k',
      λ d below.
          let b =
            Below-moves (λ a. true) s (cascade stops_resume resume (suc (length s)) i s) i d
              (cascade-kids stops_resume stops_resume resume resume-stops resume-children i s k)
              (cascade-views (λ a. true) stops_resume resume (suc (length s)) i s (λ a. refl))
              below in
          let (a, at, v, stop) =
            Below-stops stops_resume stops_resume (λ a. true)
              (cascade stops_resume resume (suc (length s)) i s) i d (λ a v p. p) k' top b in
          rw at (ground arith),
    )
