-- ===== src/Tests/Sink.antt =====
-- The sink: a small history and a small queue.
use nan_itself.Base.{ℕ, ◌+◌, String, ◌<>◌, ◌≡◌, refl, none, some, [], ◌∷◌, arith, string_eq, nat_eq}
use nan_itself.Base.Dict.{lookup}
use nan_itself.Base.Json.{end}
use nan_itself.Events.{Event, Sink, Emission, record_event, emit, emit_all, stamped}
use nan_itself.Events.Bounds.{IsSound, emit-IsSound}
use nan_itself.Events.Streams.{delta_text, stream_text, stream_text-record_event}
use nan_itself.Events.Delivery.{newest, emit_all-delivers}

abbrev event : ℕ → String → Event
event n s = record {
  t = "output_delta";
  id = "e1";
  seq = n;
  ts = n;
  content = record { text = some s; other = end };
  boot_id = none;
}

abbrev sink : Sink
sink = record {
  subs = (0, event 1 "a" ∷ []) ∷ [];
  made = 1;
  history = event 1 "a" ∷ [];
  history_limit = 2;
  queue_size = 2;
  seq = 1;
  boot_id = none;
  ns = "0a";
  counter = 1;
}

abbrev more : String → Emission
more s = record {
  t = "output_delta";
  content = record { text = some s; other = end };
  id = some "e1";
  now = 7;
}

sink-IsSound : IsSound sink
sink-IsSound = record {
  history_fits = omega arith;
  history_grows = omega arith;
  queues_fit = (λ p. omega arith, omega arith, tt);
}

emit-IsSound_example : IsSound (emit sink (more "b")).0 × ((emit sink (more "b")).0.seq ≡ 1 + 1)
emit-IsSound_example = emit-IsSound sink (more "b") sink-IsSound

stream_text-record_event_example :
    stream_text "output_delta" "e1" (record_event 2 (event 1 "a" ∷ []) (event 2 "b"))
    ≡ stream_text "output_delta" "e1" (event 1 "a" ∷ [])
      <> delta_text "output_delta" "e1" (event 2 "b")
stream_text-record_event_example =
    stream_text-record_event "output_delta" "e1" 2 (event 1 "a" ∷ []) (event 2 "b") (omega arith)

emit_all-delivers_example :
    lookup 0 (emit_all sink (more "b" ∷ more "c" ∷ [])).subs
    ≡ some (newest 2 (event 1 "a" ∷ stamped sink (more "b" ∷ more "c" ∷ [])))
unfolding lookup nat_eq
emit_all-delivers_example =
    (emit_all-delivers sink 0 (event 1 "a" ∷ []) (more "b" ∷ more "c" ∷ []) refl).1 (omega arith)
      (omega arith)
