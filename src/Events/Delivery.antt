-- ===== src/Events/Delivery.antt =====
-- nan/events.py: what a subscriber's queue holds after emissions in a row.
use nan_itself.Base.{
  ℕ, zero, suc, ◌-◌, ◌≤◌, ◌<◌, ◌≡◌, refl, sym, ap, ◌∙◌, inl, inr, false, ◌&&◌, some, List, [], ◌∷◌,
  ◌++◌, append_assoc, append-nil, arith, ltb, leb, Bool-cases, string_eq, nat_eq, length,
  length-append,
}
use nan_itself.Base.Dict.{Dict, lookup}
use mathlib.Core.Option
use nan_itself.Events.Bounds.{offer_fits, stamp-next}
use nan_itself.Events.{Event, Sink, Emission, offer, offer_all, stamp, emit, emit_all, stamped}

abbrev drop : ℕ → List Event → List Event
drop zero es = es
drop (suc n) [] = []
drop (suc n) (e ∷ es) = drop n es

-- The last `n` events.
abbrev pub newest : ℕ → List Event → List Event
newest n es = drop (length es - n) es

-- A queue after offers in a row.
offers : ℕ → List Event → List Event → List Event
offers size q [] = q
offers size q (e ∷ es) = offers size (offer size q e) es

offers-unbounded : (q es : List Event) → offers 0 q es ≡ q ++ es
unfolding offers offer
offers-unbounded q [] = sym (append-nil q)
offers-unbounded q (e ∷ es) = offers-unbounded (q ++ e ∷ []) es ∙ append_assoc q (e ∷ []) es

newest-all : (size : ℕ) (q : List Event) → length q ≤ size → newest size q ≡ q
newest-all size q fits = let e : length q - size ≡ 0 = omega arith in rw e refl

newest-cons :
    (size : ℕ) (x : Event) (q : List Event) → size ≤ length q → newest size (x ∷ q) ≡ newest size q
newest-cons size x q h =
    let e : suc (length q) - size ≡ suc (length q - size) = omega arith in rw e refl

-- One offer, seen through the newest events of the queue and what follows.
newest-offer :
    (size : ℕ) (q : List Event) (e : Event) (es : List Event)
    → 0 < size
    → length q ≤ size
    → newest size (offer size q e ++ es) ≡ newest size (q ++ e ∷ es)
unfolding offer
newest-offer size [] e es p fits =
    let open_ : (ltb 0 size && leb size 0) ≡ false = ground arith in rw open_ refl
newest-offer size (x ∷ q) e es p fits =
    elim (Bool-cases (ltb 0 size && leb size (suc (length q)))) [
      | inl full ↦
          rw (full, append_assoc q (e ∷ []) es)
            (sym (newest-cons size x (q ++ e ∷ es) (ground (arith, length-append q (e ∷ es)))))
      | inr room ↦ rw (room, append_assoc q (e ∷ []) es) refl
    ]

-- A bounded queue keeps the newest events.
offers-newest :
    (size : ℕ) (q es : List Event)
    → 0 < size
    → length q ≤ size
    → offers size q es ≡ newest size (q ++ es)
unfolding offers
offers-newest size q [] p fits = rw append-nil (sym (newest-all size q fits))
offers-newest size q (e ∷ es) p fits =
    offers-newest size (offer size q e) es p (offer_fits size q e p fits)
    ∙ newest-offer size q e es p fits

queue-offer_all :
    (k size : ℕ) (e : Event) (subs : Dict ℕ (List Event))
    → lookup k (offer_all size e subs) ≡ Option.map (λ q. offer size q e) (lookup k subs)
unfolding lookup
queue-offer_all k size e [] = refl
queue-offer_all k size e ((j, q) ∷ subs) = ground (arith, queue-offer_all k size e subs)

queue-emit :
    (k : ℕ) (s : Sink) (e : Emission)
    → lookup k (emit s e).0.subs
      ≡ Option.map (λ q. offer s.queue_size q (stamp s e).1) (lookup k s.subs)
unfolding emit
queue-emit k s e =
    let (number, moved, history, subs, limit, size) = stamp-next s e in
    rw (subs, size) (queue-offer_all k s.queue_size (stamp s e).1 s.subs)

size-emit : (s : Sink) (e : Emission) → (emit s e).0.queue_size ≡ s.queue_size
unfolding emit
size-emit s e = let (number, moved, history, subs, limit, size) = stamp-next s e in size

queue-emit_all :
    (k : ℕ) (s : Sink) (es : List Emission) (q : List Event)
    → lookup k s.subs ≡ some q
    → lookup k (emit_all s es).subs ≡ some (offers s.queue_size q (stamped s es))
unfolding emit_all stamped offers
queue-emit_all k s [] q h = h
queue-emit_all k s (e ∷ es) q h =
    queue-emit_all k (emit s e).0 es (offer s.queue_size q (stamp s e).1)
      (rw queue-emit (rw h refl))
    ∙ ap (λ n. some (offers n (offer s.queue_size q (stamp s e).1) (stamped (emit s e).0 es)))
        (size-emit s e)

-- A subscriber's queue, after emissions in a row, is its old content and the events of all of
-- them in order: all of it if the queue is unbounded, and otherwise the newest events, as many as
-- fit. What is lost is only the oldest.
pub emit_all-delivers :
    (s : Sink) (k : ℕ) (q : List Event) (es : List Emission)
    → lookup k s.subs ≡ some q
    → (s.queue_size ≡ 0 → lookup k (emit_all s es).subs ≡ some (q ++ stamped s es))
      × (0 < s.queue_size
          → length q ≤ s.queue_size
          → lookup k (emit_all s es).subs ≡ some (newest s.queue_size (q ++ stamped s es)))
emit_all-delivers s k q es h = (
  λ unbounded.
      queue-emit_all k s es q h
      ∙ ap some (ap (λ n. offers n q (stamped s es)) unbounded ∙ offers-unbounded q (stamped s es)),
  λ p fits.
      queue-emit_all k s es q h ∙ ap some (offers-newest s.queue_size q (stamped s es) p fits),
)
