-- ===== src/Events.antt =====
-- nan/events.py: the event sink, its bounded history and its subscribers' bounded queues.
-- A queue object is named by a number; a sink keeps how many it has made. The content of an event
-- is an object whose `text` entry, which every emitter gives as text, is kept apart.
pub mod Bounds
pub mod Streams
pub mod Delivery
use nan_itself.Base.{
  ℕ, zero, suc, ◌+◌, ◌-◌, ◌*◌, ◌/◌, ◌≤◌, ◌<◌, String, ◌<>◌, ◌≡◌, refl, sym, ap, ◌∙◌, subst, fun_ext,
  ◌≢◌, ◌↔◌, ◌⊎◌, inl, inr, Bool, true, false, not, ◌&&◌, ◌||◌, Option, none, some, List, [], ◌∷◌,
  ◌++◌, map, append_assoc, append-nil, map-append, arith, ltb, leb, if◌then◌else◌, is_some,
  Bool-cases, Option-cases, Eq, ◌==◌, contains, ==_iff, ==_refl, string_eq, nat_eq, length, last?,
  set_last, drop_last, select, any, All, length-append, last?-snoc, set_last-snoc, drop_last-snoc,
  All-append, All-select, length-map,
}
use nan_itself.Base.Dict.{Dict, keys, values, lookup, insert, erase, lookup-insert, lookup-erase}
use nan_itself.Base.Json.{Fields}
use nan_itself.Base.Text.{decimal}

pub record Content : Type 0 where
  pub text : Option String
  pub other : Fields

pub record Event : Type 0 where
  pub t : String
  pub id : String
  pub seq : ℕ
  pub ts : ℕ
  pub content : Content
  pub boot_id : Option String

pub record Sink : Type 0 where
  pub subs : Dict ℕ (List Event)
  pub made : ℕ
  pub history : List Event
  pub history_limit : ℕ
  pub queue_size : ℕ
  pub seq : ℕ
  pub boot_id : Option String
  pub ns : String
  pub counter : ℕ

-- `Sink.reset`
pub reset : Option String → Sink → Sink
reset boot s = record s { subs = []; history = []; seq = 0; boot_id = boot }

-- `Sink._id`
pub next_id : Sink → Sink × String
next_id s = let n = s.counter + 1 in (record s { counter = n }, "e" <> (s.ns <> ("-" <> decimal n)))

-- `id or self._id()`
abbrev pub choose_id : Option String → Sink → Sink × String
choose_id none s = next_id s
choose_id (some i) s = if i == "" then next_id s else (s, i)

abbrev pub or_empty : Option String → String
or_empty none = ""
or_empty (some t) = t

abbrev pub is_delta : String → Bool
is_delta t = t == "output_delta" || t == "thinking_delta"

-- `Sink._merge_stream_delta`
unfoldable pub merge_stream_delta : Option Event → Event → Option Event
merge_stream_delta none e = none
merge_stream_delta (some tail) e =
    if not (is_delta e.t)
    then none
    else if not (tail.t == e.t) || not (tail.id == e.id)
    then none
    else some (record tail {
      content = record {
        text = some (or_empty tail.content.text <> or_empty e.content.text);
        other = tail.content.other;
      };
    })

abbrev pub tail_of : List Event → List Event
tail_of [] = []
tail_of (e ∷ es) = es

-- `deque.append` under `maxlen`.
unfoldable pub push_bounded : (limit : ℕ) → List Event → Event → List Event
push_bounded limit es e =
    let longer = es ++ e ∷ [] in if ltb limit (length longer) then tail_of longer else longer

abbrev store_in : Option Event → ℕ → List Event → Event → List Event
store_in none limit es e = push_bounded limit es e
store_in (some merged) limit es e = set_last merged es

-- The history after an event: merged into the last entry, or appended.
unfoldable pub record_event : (limit : ℕ) → List Event → Event → List Event
record_event limit es e = store_in (merge_stream_delta (last? es) e) limit es e

-- One subscriber: a full queue loses its oldest event. A queue of size zero is unbounded.
unfoldable pub offer : (size : ℕ) → List Event → Event → List Event
offer size q e = if ltb 0 size && leb size (length q) then tail_of q ++ e ∷ [] else q ++ e ∷ []

abbrev pub offer_all : (size : ℕ) → Event → Dict ℕ (List Event) → Dict ℕ (List Event)
offer_all size e [] = []
offer_all size e ((k, q) ∷ subs) = (k, offer size q e) ∷ offer_all size e subs

-- What one call of `emit` is given; `now` is `time.time()`.
pub record Emission : Type 0 where
  pub t : String
  pub content : Content
  pub id : Option String
  pub now : ℕ

-- The event that `emit` makes, and the sink with its counters moved on.
unfoldable pub stamp : Sink → Emission → Sink × Event
unfolding next_id
stamp s e =
    let (s', i) = choose_id e.id (record s { seq = s.seq + 1 }) in
    (
      s',
      record {
        t = e.t;
        id = i;
        seq = s'.seq;
        ts = e.now;
        content = e.content;
        boot_id = s'.boot_id;
      },
    )

-- `Sink.emit`
unfoldable pub emit : Sink → Emission → Sink × String
emit s e =
    let (s', event) = stamp s e in
    (
      record s' {
        history = record_event s'.history_limit s'.history event;
        subs = offer_all s'.queue_size event s'.subs;
      },
      event.id,
    )

-- `Sink.subscribe`
unfoldable pub subscribe : Sink → Sink × ℕ
subscribe s = (record s { subs = s.subs ++ (s.made, []) ∷ []; made = s.made + 1 }, s.made)

-- `Sink.unsubscribe`
unfoldable pub unsubscribe : ℕ → Sink → Sink
unsubscribe q s = record s { subs = erase q s.subs }

-- The sink after emissions in a row, and the events that they made.
unfoldable pub emit_all : Sink → List Emission → Sink
emit_all s [] = s
emit_all s (e ∷ es) = emit_all (emit s e).0 es

unfoldable pub stamped : Sink → List Emission → List Event
stamped s [] = []
stamped s (e ∷ es) = (stamp s e).1 ∷ stamped (emit s e).0 es
