-- ===== src/Boot/Turns.antt =====
-- nan/boot.py: what `_restore_turns` makes of one agent's last turn and its messages.
use nan_itself.Base.{
  String, ◌≡◌, refl, sym, ◌∙◌, ap, subst, Bool, true, false, ◌||◌, Option, List, [], ◌∷◌, ◌++◌,
  append_assoc, append-nil, arith, string_eq, nat_eq, drop_last, All,
}
use nan_itself.Turn.Model.{
  Turn, TurnPhase, observed, injected, thought, acted, committed, InboxMessage,
}
use nan_itself.Agent.State.{Agent, deliver}
use nan_itself.Persistence.Snapshot.{
  AgentSnapshot, InFlight, clean, requeue, resume, in_flight, in_flight_at,
}
use nan_itself.Boot.Restore.{new_agent, deliver_all, requeued, restore_turns, snapshot_of_agent}

abbrev pub is_given : List InboxMessage → Bool
is_given [] = false
is_given (m ∷ ms) = true

deliver_all_lem :
    (ms : List InboxMessage) (a : Agent)
    → deliver_all ms a ≡ record a { inbox = a.inbox ++ ms; wake = a.wake || is_given ms }
unfolding deliver_all deliver
deliver_all_lem [] a = ground (arith, append-nil a.inbox)
deliver_all_lem (m ∷ ms) a =
    deliver_all_lem ms (deliver m a) ∙ ground (arith, append_assoc a.inbox (m ∷ []) ms)

deliver_all-append :
    (ms ns : List InboxMessage) (a : Agent)
    → deliver_all ns (deliver_all ms a) ≡ deliver_all (ms ++ ns) a
unfolding deliver_all
deliver_all-append [] ns a = refl
deliver_all-append (m ∷ ms) ns a = deliver_all-append ms ns (deliver m a)

-- What comes back of a last turn: its inbox, and the turns.
abbrev pub inbox_again : InFlight → List InboxMessage
inbox_again (requeue inbox) = inbox
inbox_again _ = []

abbrev pub turns_again : InFlight → List Turn → List Turn
turns_again (requeue inbox) ts = drop_last ts
turns_again _ ts = ts

restored_lem :
    (persona : String) (parent : Option Agent) (s : AgentSnapshot) (f : InFlight)
    → deliver_all s.pending (requeued f (new_agent persona parent s))
      ≡ record (new_agent persona parent s) {
        turns = turns_again f s.turns;
        inbox = inbox_again f ++ s.pending;
        wake = is_given (inbox_again f ++ s.pending);
      }
restored_lem persona parent s (requeue inbox) =
    deliver_all-append inbox s.pending
      (record (new_agent persona parent s) { turns = drop_last s.turns })
    ∙ deliver_all_lem (inbox ++ s.pending)
        (record (new_agent persona parent s) { turns = drop_last s.turns })
restored_lem persona parent s clean = deliver_all_lem s.pending (new_agent persona parent s)
restored_lem persona parent s resume = deliver_all_lem s.pending (new_agent persona parent s)

-- An agent comes back with its snapshot's turns, and with the messages that no turn had observed
-- when the snapshot was written, in their order. Only a last turn that is still `observed` is taken
-- back, and then its inbox comes first; the loop is woken exactly if there is a message.
pub restore_turns_lem :
    (persona : String) (parent : Option Agent) (s : AgentSnapshot)
    → restore_turns s (new_agent persona parent s) ≡ record (new_agent persona parent s) {
      turns = turns_again (in_flight s.turns) s.turns;
      inbox = inbox_again (in_flight s.turns) ++ s.pending;
      wake = is_given (inbox_again (in_flight s.turns) ++ s.pending);
    }
unfolding restore_turns
restore_turns_lem persona parent s = restored_lem persona parent s (in_flight s.turns)

All-committed-clean :
    (ts : List Turn) → All (λ (t : Turn). t.phase ≡ committed) ts → in_flight ts ≡ clean
unfolding in_flight
All-committed-clean [] h = refl
All-committed-clean (t ∷ []) (h, _) = rw h refl
All-committed-clean (t ∷ u ∷ ts) (_, hs) = All-committed-clean (u ∷ ts) hs

again :
    (ts : List Turn) (f : InFlight)
    → (in_flight ts ≡ f)
    → All (λ (t : Turn). t.phase ≡ committed) (drop_last ts)
    → (inbox_again (in_flight (turns_again f ts)) ≡ [])
      × (turns_again (in_flight (turns_again f ts)) (turns_again f ts) ≡ turns_again f ts)
again ts (requeue inbox) e h = rw (All-committed-clean (drop_last ts) h) (refl, refl)
again ts clean e h = rw e (refl, refl)
again ts resume e h = rw e (refl, refl)

-- The messages that turns have observed, oldest first.
abbrev pub observed_by : List Turn → List InboxMessage
observed_by [] = []
observed_by (t ∷ ts) = t.inbox ++ observed_by ts

-- An agent's messages, oldest first: those of its turns, then the ones that no turn has observed.
abbrev pub messages_of : List Turn → List InboxMessage → List InboxMessage
messages_of ts waiting = observed_by ts ++ waiting

observed_again-cons :
    (f : InFlight) (t u : Turn) (ts : List Turn)
    → observed_by (turns_again f (u ∷ ts)) ++ inbox_again f ≡ observed_by (u ∷ ts)
    → observed_by (turns_again f (t ∷ u ∷ ts)) ++ inbox_again f ≡ observed_by (t ∷ u ∷ ts)
observed_again-cons (requeue inbox) t u ts e =
    append_assoc t.inbox (observed_by (drop_last (u ∷ ts))) inbox ∙ ap (λ ms. t.inbox ++ ms) e
observed_again-cons clean t u ts e =
    append_assoc t.inbox (observed_by (u ∷ ts)) [] ∙ ap (λ ms. t.inbox ++ ms) e
observed_again-cons resume t u ts e =
    append_assoc t.inbox (observed_by (u ∷ ts)) [] ∙ ap (λ ms. t.inbox ++ ms) e

observed_again-one :
    (t : Turn) (phase : TurnPhase)
    → let f = in_flight_at phase t.inbox in
      observed_by (turns_again f (t ∷ [])) ++ inbox_again f ≡ t.inbox ++ []
observed_again-one t observed = sym (append-nil t.inbox)
observed_again-one t committed = append-nil (t.inbox ++ [])
observed_again-one t thought = append-nil (t.inbox ++ [])
observed_again-one t injected = append-nil (t.inbox ++ [])
observed_again-one t acted = append-nil (t.inbox ++ [])

observed_again :
    (ts : List Turn)
    → observed_by (turns_again (in_flight ts) ts) ++ inbox_again (in_flight ts) ≡ observed_by ts
unfolding in_flight
observed_again [] = refl
observed_again (t ∷ []) = observed_again-one t t.phase
observed_again (t ∷ u ∷ ts) =
    observed_again-cons (in_flight (u ∷ ts)) t u ts (observed_again (u ∷ ts))

-- A restored agent has exactly the messages of its snapshot, in their order, whether a turn has
-- observed them or not. It is persisted at once, and where only the last turn of a snapshot may be open,
-- as the loop leaves it, restoring what was then written gives the same agent again: a process that
-- dies during a boot, any number of times, neither loses nor doubles a message.
pub restore_turns_again :
    (persona : String) (parent : Option Agent) (s : AgentSnapshot)
    → All (λ (t : Turn). t.phase ≡ committed) (drop_last s.turns)
    → let a = restore_turns s (new_agent persona parent s) in
      (messages_of a.turns a.inbox ≡ messages_of s.turns s.pending)
      × (restore_turns (snapshot_of_agent a) (new_agent persona parent (snapshot_of_agent a)) ≡ a)
restore_turns_again persona parent s h =
    let e = restore_turns_lem persona parent s in
    let (no_inbox, same_turns) = again s.turns (in_flight s.turns) refl h in
    let f = in_flight s.turns in
    subst
      (λ (a : Agent).
        (messages_of a.turns a.inbox ≡ messages_of s.turns s.pending)
        × (restore_turns (snapshot_of_agent a) (new_agent persona parent (snapshot_of_agent a))
            ≡ a))
      (sym e)
      (
        sym (append_assoc (observed_by (turns_again f s.turns)) (inbox_again f) s.pending)
            ∙ ap (λ ms. ms ++ s.pending) (observed_again s.turns),
        restore_turns_lem persona parent _ ∙ rw (no_inbox, same_turns) refl,
      )
