-- ===== src/Agent/History.antt =====
-- nan/agent/core.py: the cache of the conversation, `_messages`, against the turns it is made from.
use nan_itself.Base.{
  last?-set_last, ℕ, ◌+◌, String, ◌≡◌, refl, sym, ap, ◌∙◌, subst, inl, inr, Option, none, some,
  List, [], ◌∷◌, ◌++◌, arith, ltb, Bool-cases, string_eq, nat_eq, last?, set_last, last?-snoc,
}
use nan_itself.Llm.Types.{Message}
use nan_itself.Turn.Model.{Turn, noted, TurnOrigin, normal, context_cleared}
use nan_itself.Agent.State.{
  is_committed, fresh_turn, Agent, rendered_in, rendered_turns, of_epoch, rebuild_history, cached,
  history, deliver, note_delta, hold_turn, open_of, resident_turn, record_on, record_delta,
  request_death, finish, suspend, freeze, pause, resume, open_turn, open_after, observe,
  history_chars, begin_death,
}
use nan_itself.Agent.Run.{Interrupt, interrupt, interrupts}

-- The cache, where it is filled, is what the turns render as.
abbrev pub Agrees : Option (List Message) → List Turn → Type 0
Agrees none ts = Unit
Agrees (some ms) ts = ms ≡ rebuild_history ts

-- An open turn has not been rendered.
abbrev pub IsBare : Option Turn → Type 0
IsBare none = Unit
IsBare (some t) = t.rendered ≡ none

pub record IsCoherent (a : Agent) : Type 0 where
  pub agrees : Agrees a.messages a.turns
  pub bare : IsBare (resident_turn a)

cached-Agrees :
    (o : Option (List Message)) (ts : List Turn) → Agrees o ts → cached o ts ≡ rebuild_history ts
cached-Agrees none ts h = refl
cached-Agrees (some ms) ts h = h

rendered_in_same :
    (e : ℕ) (t u : Turn)
    → (u.epoch ≡ t.epoch)
    → (u.rendered ≡ t.rendered)
    → rendered_in e u ≡ rendered_in e t
rendered_in_same e t u p q = rw (p, q) refl

only : (x t : Turn) → (some x ≡ some t) → t ≡ x
only x t h = cc

-- Another last turn, of the same epoch and rendered no further, renders the same.
rendered_turns-set_last :
    (e : ℕ) (t u : Turn) (ts : List Turn)
    → (last? ts ≡ some t)
    → (u.epoch ≡ t.epoch)
    → (u.rendered ≡ t.rendered)
    → rendered_turns e (set_last u ts) ≡ rendered_turns e ts
unfolding rendered_turns
rendered_turns-set_last e t u [] h p q = refl
rendered_turns-set_last e t u (x ∷ []) h p q =
    ap (λ ms. ms ++ []) (rendered_in_same e t u p q ∙ ap (rendered_in e) (only x t h))
rendered_turns-set_last e t u (x ∷ y ∷ ts) h p q =
    ap (λ ms. rendered_in e x ++ ms) (rendered_turns-set_last e t u (y ∷ ts) h p q)

rebuild-set_last :
    (t u : Turn) (ts : List Turn)
    → (last? ts ≡ some t)
    → (u.epoch ≡ t.epoch)
    → (u.rendered ≡ t.rendered)
    → rebuild_history (set_last u ts) ≡ rebuild_history ts
unfolding rebuild_history
rebuild-set_last t u ts h p q =
    ap (λ o. of_epoch o (set_last u ts)) (last?-set_last u t ts h)
    ∙ ap (λ e. rendered_turns e (set_last u ts)) p
    ∙ rendered_turns-set_last t.epoch t u ts h p q
    ∙ ap (λ o. of_epoch o ts) (sym h)

Agrees-same :
    (o : Option (List Message)) (ts us : List Turn)
    → (rebuild_history us ≡ rebuild_history ts)
    → Agrees o ts
    → Agrees o us
Agrees-same none ts us e h = tt
Agrees-same (some ms) ts us e h = h ∙ sym e

open_of-IsBare : (t : Turn) → (t.rendered ≡ none) → IsBare (open_of (some t))
open_of-IsBare t h = elim (Bool-cases (is_committed t.phase)) [
  | inl yes_ ↦ rw yes_ tt
  | inr no_ ↦ rw no_ h
]

history-IsCoherent : (a : Agent) → IsCoherent a → IsCoherent (history a).0
unfolding history resident_turn
history-IsCoherent a h = record {
  agrees = cached-Agrees a.messages a.turns h.agrees;
  bare = h.bare;
}

history-rebuilds : (a : Agent) → IsCoherent a → (history a).1 ≡ rebuild_history a.turns
unfolding history
history-rebuilds a h = cached-Agrees a.messages a.turns h.agrees

-- What leaves the turns and the cache as they are.
same-IsCoherent :
    (a b : Agent) → (b.turns ≡ a.turns) → (b.messages ≡ a.messages) → IsCoherent a → IsCoherent b
unfolding resident_turn
same-IsCoherent a b t m h = record { agrees = rw (t, m) h.agrees; bare = rw t h.bare }

interrupt-same :
    (i : Interrupt) (a : Agent)
    → ((interrupt i a).turns ≡ a.turns) × ((interrupt i a).messages ≡ a.messages)
unfolding deliver note_delta pause freeze resume suspend request_death begin_death finish
interrupt-same i a = ground arith

interrupts-IsCoherent :
    (is : List Interrupt) (a : Agent) → IsCoherent a → IsCoherent (interrupts is a)
unfolding interrupts
interrupts-IsCoherent [] a h = h
interrupts-IsCoherent (i ∷ is) a h =
    let (t, m) = interrupt-same i a in
    interrupts-IsCoherent is (interrupt i a) (same-IsCoherent a (interrupt i a) t m h)

open_turn-IsCoherent : (now limit : ℕ) (a : Agent) → IsCoherent (open_turn now limit a).0
unfolding open_turn resident_turn
open_turn-IsCoherent now limit a = opened (last? a.turns)
  where
    fresh :
        (kept : List Turn) (epoch : ℕ) (origin : TurnOrigin)
        → IsCoherent (observe now kept epoch origin a).0
    fresh kept epoch origin = record {
      agrees = tt;
      bare = rw (last?-snoc kept (fresh_turn now epoch origin a)) refl;
    }

    opened : (o : Option Turn) → IsCoherent (open_after now limit o a).0
    opened none = fresh a.turns 0 TurnOrigin.first
    opened (some t) = elim (Bool-cases (ltb limit (history_chars a))) [
      | inl yes_ ↦ rw yes_ (fresh [] (t.epoch + 1) context_cleared)
      | inr no_ ↦ rw no_ (fresh a.turns t.epoch normal)
    ]

record_on-IsCoherent :
    (o : Option Turn) (line section : String) (a : Agent)
    → (resident_turn a ≡ o)
    → ((t : Turn) → (o ≡ some t) → last? a.turns ≡ some t)
    → IsCoherent a
    → IsCoherent (record_on o line section a)
unfolding resident_turn note_delta hold_turn noted
record_on-IsCoherent none line section a e k h = record { agrees = h.agrees; bare = h.bare }
record_on-IsCoherent (some t) line section a e k h =
    let u = noted t line section in
    let bare = subst IsBare e h.bare in
    record {
      agrees =
          Agrees-same a.messages a.turns (set_last u a.turns)
            (rebuild-set_last t u a.turns (k t refl) refl refl) h.agrees;
      bare =
          subst (λ o. IsBare (open_of o)) (sym (last?-set_last u t a.turns (k t refl)))
            (open_of-IsBare u bare);
    }

record_delta-IsCoherent :
    (line section : String) (a : Agent) → IsCoherent a → IsCoherent (record_delta line section a)
unfolding record_delta resident_turn
record_delta-IsCoherent line section a h =
    record_on-IsCoherent (open_of (last? a.turns)) line section a refl
      (λ t e. opened t (last? a.turns) e) h
  where
    opened : (t : Turn) (o : Option Turn) → (open_of o ≡ some t) → o ≡ some t
    opened t o e = ground arith

-- An agent whose cache, where it is filled, is what its turns render as, and whose open turn has
-- not been rendered, stays so: whatever other tasks do to it, when a change is recorded, when a new
-- turn is opened, with or without clearing the context, and when the history is read. What is read
-- is then what the turns render as.
pub methods-IsCoherent :
    (is : List Interrupt) (line section : String) (now limit : ℕ) (a : Agent)
    → IsCoherent a
    → IsCoherent (interrupts is a)
      × IsCoherent (record_delta line section a)
      × IsCoherent (open_turn now limit a).0
      × IsCoherent (history a).0
      × ((history a).1 ≡ rebuild_history a.turns)
methods-IsCoherent is line section now limit a h = (
  interrupts-IsCoherent is a h,
  record_delta-IsCoherent line section a h,
  open_turn-IsCoherent now limit a,
  history-IsCoherent a h,
  history-rebuilds a h,
)
