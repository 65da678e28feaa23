-- ===== src/Ingestion/Streaming/Events/Sorted.antt =====
-- What the parsing loop in ingestion/streaming/kafka.py leaves of a batch of messages.
use marketforge.Prelude.{
  ◌≡◌, refl, ◌⊎◌, inl, inr, sym, ap, subst, ◌+◌, List, [], ◌∷◌, map, length, In, All, arith,
  raise_if, ok, err, Bool-cases,
}
use marketforge.Ingestion.Values.{astimezone, Datetime, is_naive, is_value_problem, Raises}
use marketforge.Ingestion.Streaming.{KafkaMessage, Event, Parsers, Rejection, coordinate_of}
use marketforge.Ingestion.Streaming.Events.{
  parse_event, an_object, required, optional, Parsed, parse_all, file_message,
}
use marketforge.Ingestion.Streaming.Events.Fresh.{AreLocated}
use marketforge.Ingestion.Contracts.Steps.{>>=-eq-ok}

ok_injective : {A : Type 0} (a b : A) → ◌≡◌ {A = Raises A} (ok a) (ok b) → a ≡ b
ok_injective a b e = cc

parse_event_located :
    (parsers : Parsers) (m : KafkaMessage) (t : Datetime) (e : Event)
    → parse_event parsers m t ≡ ok e
    → e.coordinate ≡ coordinate_of m
unfolding parse_event
parse_event_located parsers m t e h =
    let (found, _, h1) = >>=-eq-ok (parsers.loads m.value) _ e h in
    let (payload, _, h2) = >>=-eq-ok (an_object found) _ e h1 in
    let (event_id, _, h3) = >>=-eq-ok (required payload.event_id) _ e h2 in
    let (symbol, _, h4) = >>=-eq-ok (required payload.symbol) _ e h3 in
    let (stamp, _, h5) = >>=-eq-ok (required payload.event_timestamp) _ e h4 in
    let (event_type, _, h6) = >>=-eq-ok (required payload.event_type) _ e h5 in
    let (timestamp, _, h7) = >>=-eq-ok (parsers.from_iso stamp) _ e h6 in
    let (aware, _, h8) = >>=-eq-ok (raise_if (is_naive timestamp) _) _ e h7 in
    let (in_utc, _, h8') = >>=-eq-ok (astimezone timestamp) _ e h8 in
    let (price, _, h9) = >>=-eq-ok (optional parsers.to_float payload.price) _ e h8' in
    let (anomaly, _, h10) = >>=-eq-ok (optional parsers.to_float payload.anomaly_score) _ e h9 in
    let (detected, _, h11) =
      >>=-eq-ok (optional parsers.from_iso_utc payload.detected_at) _ e h10 in
    ap (λ (x : Event). x.coordinate) (sym (ok_injective _ e h11))

abbrev pub IsFiled : Parsed → KafkaMessage → Type 0
IsFiled p m =
    In m (map (λ (a : KafkaMessage × Event). a.0) p.accepted)
    ⊎ In m (map (λ (r : Rejection). r.message) p.rejected)

-- Each message is with the accepted or with the rejected, and an accepted event is that of its
-- message.
pub record Sorting (parsers : Parsers) (started : Datetime) (messages : List KafkaMessage)
    (p : Parsed) : Type 0 where
  pub parsed :
      All (λ (a : KafkaMessage × Event). parse_event parsers a.0 started ≡ ok a.1) p.accepted
  pub counted : length p.accepted + length p.rejected ≡ length messages
  pub filed : All (IsFiled p) messages

IsFiled-accepted :
    (a : KafkaMessage × Event) (p : Parsed) (messages : List KafkaMessage)
    → All (IsFiled p) messages
    → All (IsFiled (record p { accepted = a ∷ p.accepted })) messages
IsFiled-accepted a p [] h = tt
IsFiled-accepted a p (m ∷ messages) ((inl h), rest) =
    (inl (inr h), IsFiled-accepted a p messages rest)
IsFiled-accepted a p (m ∷ messages) ((inr h), rest) = (inr h, IsFiled-accepted a p messages rest)

IsFiled-rejected :
    (r : Rejection) (p : Parsed) (messages : List KafkaMessage)
    → All (IsFiled p) messages
    → All (IsFiled (record p { rejected = r ∷ p.rejected })) messages
IsFiled-rejected r p [] h = tt
IsFiled-rejected r p (m ∷ messages) ((inl h), rest) = (inl h, IsFiled-rejected r p messages rest)
IsFiled-rejected r p (m ∷ messages) ((inr h), rest) =
    (inr (inr h), IsFiled-rejected r p messages rest)

pub parsed-AreLocated :
    (parsers : Parsers) (started : Datetime) (accepted : List (KafkaMessage × Event))
    → All (λ (a : KafkaMessage × Event). parse_event parsers a.0 started ≡ ok a.1) accepted
    → AreLocated accepted
parsed-AreLocated parsers started [] h = tt
parsed-AreLocated parsers started ((m, e) ∷ accepted) h =
    (parse_event_located parsers m started e h.0, parsed-AreLocated parsers started accepted h.1)

file_message-Sorting :
    (parsers : Parsers) (m : KafkaMessage) (t : Datetime) (r : Raises Event)
    (messages : List KafkaMessage) (rest p : Parsed)
    → parse_event parsers m t ≡ r
    → Sorting parsers t messages rest
    → file_message m t r rest ≡ ok p
    → Sorting parsers t (m ∷ messages) p
unfolding file_message
file_message-Sorting parsers m t (ok e) messages rest p at s h =
    subst (Sorting parsers t (m ∷ messages)) (ok_injective _ p h) (record {
      parsed = (at, s.parsed);
      counted = omega (arith, s.counted);
      filed = (inl (inl refl), IsFiled-accepted (m, e) rest messages s.filed);
    })
file_message-Sorting parsers m t (err x) messages rest p at s h =
    elim (Bool-cases (is_value_problem x)) [
      | inl problem ↦
          let rejection : Rejection = record { message = m; error = x; received_at = t } in
          let kept : Parsed = record rest { rejected = rejection ∷ rest.rejected } in
          let built : kept ≡ p = ground arith in
          subst (Sorting parsers t (m ∷ messages)) built (record {
            parsed = s.parsed;
            counted = omega (arith, s.counted);
            filed = (inr (inl refl), IsFiled-rejected rejection rest messages s.filed);
          })
      | inr other ↦ absurd (ground arith)
    ]

-- Where the parsing loop raises nothing, the accepted and the rejected messages are together as many
-- as the batch, every message of the batch is one of them, and each accepted event is what its
-- message parses to.
pub parse_all-Sorting :
    (parsers : Parsers) (started : Datetime) (messages : List KafkaMessage) (p : Parsed)
    → parse_all parsers started messages ≡ ok p
    → Sorting parsers started messages p
unfolding parse_all
parse_all-Sorting parsers started [] p h =
    subst (Sorting parsers started []) (ok_injective _ p h)
      (record { parsed = tt; counted = omega arith; filed = tt })
parse_all-Sorting parsers started (m ∷ messages) p h =
    let (rest, r, q) = >>=-eq-ok (parse_all parsers started messages) _ p h in
    file_message-Sorting parsers m started (parse_event parsers m started) messages rest p refl
      (parse_all-Sorting parsers started messages rest r) q
