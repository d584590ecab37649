-- ===== src/Events/Streams.antt =====
-- nan/events.py, `_merge_stream_delta`: coalescing keeps the text of every stream.
use nan_itself.Base.{
  ℕ, ◌<◌, String, ◌<>◌, ◌≡◌, sym, ap, ◌∙◌, inl, inr, ◌&&◌, some, List, [], ◌∷◌, ◌++◌, arith,
  if◌then◌else◌, Option-cases, ◌==◌, string_eq, nat_eq, length, last?, set_last, length-append,
  true, false, Bool, refl,
}
use text.Mathlib.TextLemmas
use mathlib.Core.Option.{some-injective}
use nan_itself.Events.{Event, or_empty, merge_stream_delta, push_bounded, record_event}

-- The text of an event, if it belongs to the stream `i` of deltas of the type `t`.

abbrev pub delta_text : (t i : String) → Event → String
delta_text t i e = if e.t == t && e.id == i then or_empty e.content.text else ""

-- The text of a stream, over all entries.
pub stream_text : (t i : String) → List Event → String
stream_text t i [] = ""
stream_text t i (e ∷ es) = delta_text t i e <> stream_text t i es

stream_text-append :
    (t i : String) (xs ys : List Event)
    → stream_text t i (xs ++ ys) ≡ stream_text t i xs <> stream_text t i ys
unfolding stream_text
stream_text-append t i [] ys = sym (TextLemmas.nil-append (stream_text t i ys))
stream_text-append t i (x ∷ xs) ys =
    ap (λ s. delta_text t i x <> s) (stream_text-append t i xs ys)
    ∙ sym (TextLemmas.append_assoc (delta_text t i x) (stream_text t i xs) (stream_text t i ys))

merge_parts :
    (l e m : Event)
    → merge_stream_delta (some l) e ≡ some m
    → (m.t ≡ l.t)
      × (m.id ≡ l.id)
      × (e.t ≡ l.t)
      × (e.id ≡ l.id)
      × (m.content.text ≡ some (or_empty l.content.text <> or_empty e.content.text))
unfolding merge_stream_delta
merge_parts l e m h = ground arith

if-append :
    (b : Bool) (s u : String)
    → (if b then s <> u else "") ≡ (if b then s else "") <> (if b then u else "")
if-append true s u = refl
if-append false s u = sym (TextLemmas.append-nil "")

-- A merged entry holds the text of both.
merge-text :
    (t i : String) (l e m : Event)
    → merge_stream_delta (some l) e ≡ some m
    → delta_text t i m ≡ delta_text t i l <> delta_text t i e
merge-text t i l e m h =
    let (mt, mi, et, ei, text) = merge_parts l e m h in
    rw (mt, mi, et, ei, text)
      (if-append (l.t == t && l.id == i) (or_empty l.content.text) (or_empty e.content.text))

set_last-text :
    (t i : String) (l m e : Event) (es : List Event)
    → last? es ≡ some l
    → delta_text t i m ≡ delta_text t i l <> delta_text t i e
    → stream_text t i (set_last m es) ≡ stream_text t i es <> delta_text t i e
unfolding stream_text
set_last-text t i l m e [] h k = cc
set_last-text t i l m e (x ∷ []) h k =
    TextLemmas.append-nil (delta_text t i m)
    ∙ k
    ∙ ap (λ s. s <> delta_text t i e)
        (ap (delta_text t i) (sym (some-injective x l h))
          ∙ sym (TextLemmas.append-nil (delta_text t i x)))
set_last-text t i l m e (x ∷ y ∷ es) h k =
    ap (λ s. delta_text t i x <> s) (set_last-text t i l m e (y ∷ es) h k)
    ∙ sym (TextLemmas.append_assoc (delta_text t i x) (stream_text t i (y ∷ es)) (delta_text t i e))

push_bounded-room :
    (limit : ℕ) (es : List Event) (e : Event)
    → length es < limit
    → push_bounded limit es e ≡ es ++ e ∷ []
unfolding push_bounded
push_bounded-room limit es e room = ground (arith, length-append es (e ∷ []))

stream_text_one : (t i : String) (e : Event) → stream_text t i (e ∷ []) ≡ delta_text t i e
unfolding stream_text
stream_text_one t i e = TextLemmas.append-nil (delta_text t i e)

-- As long as the history has room, an event adds to every stream exactly its own text, merged or
-- not: coalescing the deltas loses, adds and mixes up nothing.
pub stream_text-record_event :
    (t i : String) (limit : ℕ) (es : List Event) (e : Event)
    → length es < limit
    → stream_text t i (record_event limit es e) ≡ stream_text t i es <> delta_text t i e
unfolding record_event
stream_text-record_event t i limit es e room =
    elim (Option-cases (merge_stream_delta (last? es) e)) [
      | inl apart ↦
          rw (apart, push_bounded-room limit es e room)
            (stream_text-append t i es (e ∷ [])
              ∙ ap (λ s. stream_text t i es <> s) (stream_text_one t i e))
      | inr (merged, joins) ↦ rw joins (elim (Option-cases (last? es)) [
        | inl empty ↦ absurd (unfold merge_stream_delta in cc)
        | inr (l, last) ↦
            set_last-text t i l merged e es last (merge-text t i l e merged (rw last at joins))
      ])
    ]
