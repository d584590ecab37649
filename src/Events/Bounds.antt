-- ===== src/Events/Bounds.antt =====
-- nan/events.py: the history and the queues stay bounded, and sequence numbers grow.
use nan_itself.Base.{
  ◌+◌, ◌==◌, String, Option, Option-cases, last?, ℕ, suc, ◌-◌, ◌≤◌, ◌<◌, ◌≡◌, refl, ap, inl, inr,
  ◌&&◌, some, List, [], ◌∷◌, ◌++◌, map, arith, ltb, leb, Bool-cases, string_eq, nat_eq, length,
  set_last, All, length-append, All-append,
}
use nan_itself.Events.{
  reset, Emission, unsubscribe, record_event, stamp, emit, subscribe, tail_of, Event, Sink,
  merge_stream_delta, push_bounded, offer, offer_all,
}
use nan_itself.Base.Dict.{erase, Dict}

abbrev seqs : List Event → List ℕ
seqs = map (λ (e : Event). e.seq)

-- Strictly growing, and below the bound.
abbrev pub Grow : ℕ → List Event → Type 0
Grow bound [] = Unit
Grow bound (e ∷ es) = (e.seq ≤ bound) × All (λ (f : Event). e.seq < f.seq) es × Grow bound es

-- Each queue holds at most `size` events, where the size is positive, in the order of emission.
abbrev QueuesFit : ℕ → ℕ → Dict ℕ (List Event) → Type 0
QueuesFit bound size [] = Unit
QueuesFit bound size ((k, q) ∷ subs) =
    (0 < size → length q ≤ size) × Grow bound q × QueuesFit bound size subs

pub record IsSound (s : Sink) : Type 0 where
  pub history_fits : length s.history ≤ s.history_limit
  pub history_grows : Grow s.seq s.history
  pub queues_fit : QueuesFit s.seq s.queue_size s.subs

Grow-weaken : (n m : ℕ) (es : List Event) → n ≤ m → Grow n es → Grow m es
Grow-weaken n m [] h g = tt
Grow-weaken n m (e ∷ es) h (b, a, g) = (omega arith, a, Grow-weaken n m es h g)

All-below :
    (n : ℕ) (es : List Event) (e : Event)
    → Grow n es
    → n < e.seq
    → All (λ (f : Event). f.seq < e.seq) es
All-below n [] e g h = tt
All-below n (f ∷ fs) e (b, a, g) h = (omega arith, All-below n fs e g h)

Grow-snoc :
    (n m : ℕ) (es : List Event) (e : Event)
    → Grow n es
    → n < e.seq
    → e.seq ≤ m
    → Grow m (es ++ e ∷ [])
Grow-snoc n m [] e g h k = (k, tt, tt)
Grow-snoc n m (f ∷ fs) e (b, a, g) h k =
    (omega arith, All-append _ fs (e ∷ []) a (omega arith, tt), Grow-snoc n m fs e g h k)

Grow-tail : (n : ℕ) (es : List Event) → Grow n es → Grow n (tail_of es)
Grow-tail n [] g = tt
Grow-tail n (e ∷ es) (b, a, g) = g

length-tail_of : (es : List Event) → length (tail_of es) ≡ length es - 1
length-tail_of [] = omega arith
length-tail_of (e ∷ es) = omega arith

pub offer_fits :
    (size : ℕ) (q : List Event) (e : Event)
    → 0 < size
    → length q ≤ size
    → length (offer size q e) ≤ size
unfolding offer
offer_fits size q e p h =
    ground (arith, length-append (tail_of q) (e ∷ []), length-append q (e ∷ []), length-tail_of q)

offer-Grow :
    (n m size : ℕ) (q : List Event) (e : Event)
    → Grow n q
    → n < e.seq
    → e.seq ≤ m
    → Grow m (offer size q e)
unfolding offer
offer-Grow n m size q e g h k = elim (Bool-cases (ltb 0 size && leb size (length q))) [
  | inl full ↦ rw full (Grow-snoc n m (tail_of q) e (Grow-tail n q g) h k)
  | inr room ↦ rw room (Grow-snoc n m q e g h k)
]

offer_all-QueuesFit :
    (n m size : ℕ) (e : Event) (subs : Dict ℕ (List Event))
    → n < e.seq
    → e.seq ≤ m
    → QueuesFit n size subs
    → QueuesFit m size (offer_all size e subs)
offer_all-QueuesFit n m size e [] h k f = tt
offer_all-QueuesFit n m size e ((i, q) ∷ subs) h k (fits, grows, rest) = (
  λ p. offer_fits size q e p (fits p),
  offer-Grow n m size q e grows h k,
  offer_all-QueuesFit n m size e subs h k rest,
)

push_bounded_fits :
    (limit : ℕ) (es : List Event) (e : Event)
    → length es ≤ limit
    → length (push_bounded limit es e) ≤ limit
unfolding push_bounded
push_bounded_fits limit es e h =
    ground (arith, length-append es (e ∷ []), length-tail_of (es ++ e ∷ []))

push_bounded-Grow :
    (n m limit : ℕ) (es : List Event) (e : Event)
    → Grow n es
    → n < e.seq
    → e.seq ≤ m
    → Grow m (push_bounded limit es e)
unfolding push_bounded
push_bounded-Grow n m limit es e g h k = elim (Bool-cases (ltb limit (length (es ++ e ∷ [])))) [
  | inl full ↦ rw full (Grow-tail m (es ++ e ∷ []) (Grow-snoc n m es e g h k))
  | inr room ↦ rw room (Grow-snoc n m es e g h k)
]

length-set_last : (m : Event) (es : List Event) → length (set_last m es) ≡ length es
length-set_last m [] = refl
length-set_last m (e ∷ []) = refl
length-set_last m (e ∷ f ∷ es) = ap suc (length-set_last m (f ∷ es))

-- A merged entry has the number of the entry that it replaces.
merge-seq : (l e m : Event) → merge_stream_delta (some l) e ≡ some m → m.seq ≡ l.seq
unfolding merge_stream_delta
merge-seq l e m h = ground arith

All-set_last :
    (b : ℕ) (m l : Event) (es : List Event)
    → last? es ≡ some l
    → m.seq ≡ l.seq
    → All (λ (f : Event). b < f.seq) es
    → All (λ (f : Event). b < f.seq) (set_last m es)
All-set_last b m l [] h e a = tt
All-set_last b m l (x ∷ []) h e a = ground arith
All-set_last b m l (x ∷ y ∷ es) h e (p, a) = (p, All-set_last b m l (y ∷ es) h e a)

set_last-Grow :
    (n : ℕ) (m l : Event) (es : List Event)
    → last? es ≡ some l
    → m.seq ≡ l.seq
    → Grow n es
    → Grow n (set_last m es)
set_last-Grow n m l [] h e g = tt
set_last-Grow n m l (x ∷ []) h e g = ground arith
set_last-Grow n m l (x ∷ y ∷ es) h e (b, a, g) =
    (b, All-set_last x.seq m l (y ∷ es) h e a, set_last-Grow n m l (y ∷ es) h e g)

record_event_sound :
    (n m limit : ℕ) (es : List Event) (e : Event)
    → length es ≤ limit
    → Grow n es
    → n < e.seq
    → e.seq ≤ m
    → (length (record_event limit es e) ≤ limit) × Grow m (record_event limit es e)
unfolding record_event
record_event_sound n m limit es e fits g h k =
    elim (Option-cases (merge_stream_delta (last? es) e)) [
      | inl apart ↦
          rw apart (push_bounded_fits limit es e fits, push_bounded-Grow n m limit es e g h k)
      | inr (merged, joins) ↦ rw joins (elim (Option-cases (last? es)) [
        | inl empty ↦ absurd (unfold merge_stream_delta in cc)
        | inr (l, last) ↦ (
          rw (length-set_last merged es) fits,
          Grow-weaken n m _ (omega arith)
              (set_last-Grow n merged l es last (merge-seq l e merged (rw last at joins)) g),
        )
      ])
    ]

pub stamp-next :
    (s : Sink) (e : Emission)
    → ((stamp s e).1.seq ≡ s.seq + 1)
      × ((stamp s e).0.seq ≡ s.seq + 1)
      × ((stamp s e).0.history ≡ s.history)
      × ((stamp s e).0.subs ≡ s.subs)
      × ((stamp s e).0.history_limit ≡ s.history_limit)
      × ((stamp s e).0.queue_size ≡ s.queue_size)
unfolding stamp
stamp-next s e = ground arith

publish-IsSound :
    (s : Sink) (e : Event) (n : ℕ)
    → length s.history ≤ s.history_limit
    → Grow n s.history
    → QueuesFit n s.queue_size s.subs
    → n < e.seq
    → e.seq ≤ s.seq
    → IsSound (record s {
      history = record_event s.history_limit s.history e;
      subs = offer_all s.queue_size e s.subs;
    })
publish-IsSound s e n fits grows queues h k =
    let (fits', grows') = record_event_sound n s.seq s.history_limit s.history e fits grows h k in
    record {
      history_fits = fits';
      history_grows = grows';
      queues_fit = offer_all-QueuesFit n s.seq s.queue_size e s.subs h k queues;
    }

-- An emission keeps the sink sound: the history never exceeds its limit, no bounded queue exceeds
-- its size, and in both the sequence numbers grow strictly and stay at or below the sink's own,
-- which the emission moves on by exactly one.
pub emit-IsSound :
    (s : Sink) (e : Emission) → IsSound s → IsSound (emit s e).0 × ((emit s e).0.seq ≡ s.seq + 1)
unfolding emit
emit-IsSound s e v =
    let (number, moved, history, subs, limit, size) = stamp-next s e in
    (
      publish-IsSound (stamp s e).0 (stamp s e).1 s.seq (rw (history, limit) v.history_fits)
          (rw history v.history_grows) (rw (subs, size) v.queues_fit) (omega arith) (omega arith),
      moved,
    )

erase-QueuesFit :
    (n size k : ℕ) (subs : Dict ℕ (List Event))
    → QueuesFit n size subs
    → QueuesFit n size (erase k subs)
unfolding erase
erase-QueuesFit n size k [] f = tt
erase-QueuesFit n size k ((j, q) ∷ subs) (a, g, f) = elim (Bool-cases (k == j)) [
  | inl same ↦ rw same (erase-QueuesFit n size k subs f)
  | inr other ↦ rw other (a, g, erase-QueuesFit n size k subs f)
]

append-QueuesFit :
    (n size k : ℕ) (subs : Dict ℕ (List Event))
    → QueuesFit n size subs
    → QueuesFit n size (subs ++ (k, []) ∷ [])
append-QueuesFit n size k [] f = (λ p. omega arith, tt, tt)
append-QueuesFit n size k ((j, q) ∷ subs) (a, g, f) = (a, g, append-QueuesFit n size k subs f)

-- Subscribing, unsubscribing and resetting keep the sink sound too.
pub subscribers-IsSound :
    (s : Sink) (q : ℕ) (boot : Option String)
    → IsSound s
    → IsSound (subscribe s).0 × IsSound (unsubscribe q s) × IsSound (reset boot s)
unfolding subscribe unsubscribe reset
subscribers-IsSound s q boot v = (
  record {
    history_fits = v.history_fits;
    history_grows = v.history_grows;
    queues_fit = append-QueuesFit s.seq s.queue_size s.made s.subs v.queues_fit;
  },
  record {
    history_fits = v.history_fits;
    history_grows = v.history_grows;
    queues_fit = erase-QueuesFit s.seq s.queue_size q s.subs v.queues_fit;
  },
  record { history_fits = omega arith; history_grows = tt; queues_fit = tt },
)
