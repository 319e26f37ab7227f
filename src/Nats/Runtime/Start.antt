-- ===== src/Nats/Runtime/Start.antt =====
-- crates/caelix-microservices/src/lib.rs: what a start that succeeds has checked.
use caelix.Prelude.{
  String, ◌≡◌, refl, sym, ap, ◌∙◌, subst, arith, inl, inr, Bool, true, false, not, ◌&&◌, Option,
  none, some, List, [], ◌∷◌, ◌++◌, and-eq-true, or-eq-true, Bool-cases, In, split,
}
use caelix.Metadata.{MessageHandlerDef}
use caelix.Messages.{MicroserviceError}
use caelix.Messages.Effects.{Result, ok, err, continue-ok}
use caelix.Messages.Patterns.{nats_pattern_matches, nats_pattern_covers, valid_nats_subject}
use caelix.Messages.Patterns.Covering.{IsIncluded, nats_pattern_covers_iff}
use caelix.Redis.Broker.Events.{is_event}
use caelix.Nats.{NatsTransportOptions}
use caelix.Nats.Runtime.{
  RuntimeEffect, Surroundings, Runtime, event_patterns, listed, any_matches, any_covers,
  all_covered, ask, check, check_dead_letters, stream_name, create_covering_stream, start_events,
  service_of, start_handlers, start_tasks, started_by, start_unless, start, create_stream,
}

-- Some subject that the stream has covers all that the pattern stands for.
abbrev pub IsCovered : List String → String → Type 0
IsCovered configured pattern =
    (c : String) × In c configured × IsIncluded (split b'.' pattern) (split b'.' c)

any_covers-IsCovered :
    (configured : List String) (pattern : String)
    → any_covers configured pattern ≡ true
    → IsCovered configured pattern
any_covers-IsCovered [] pattern e = cc e
any_covers-IsCovered (c ∷ cs) pattern e =
    elim (or-eq-true (nats_pattern_covers c pattern) (any_covers cs pattern) e) [
      | inl here ↦ (c, inl refl, (nats_pattern_covers_iff c pattern).0 here)
      | inr there ↦
          let (d, listed_there, included) = any_covers-IsCovered cs pattern there in
          (d, inr listed_there, included)
    ]

all_covered-IsCovered :
    (configured subjects : List String)
    → all_covered configured subjects ≡ true
    → (s : String) → In s subjects
    → IsCovered configured s
all_covered-IsCovered configured [] e s i = elim i [ ]
all_covered-IsCovered configured (t ∷ subjects) e s (inl same) =
    let (here, there) = and-eq-true (any_covers configured t) (all_covered configured subjects) e in
    subst (IsCovered configured) (sym same) (any_covers-IsCovered configured t here)
all_covered-IsCovered configured (t ∷ subjects) e s (inr i) =
    let (here, there) = and-eq-true (any_covers configured t) (all_covered configured subjects) e in
    all_covered-IsCovered configured subjects there s i

any_matches-none :
    (hs : List MessageHandlerDef) (subject : String)
    → any_matches hs subject ≡ false
    → (handler : MessageHandlerDef) → In handler hs
    → nats_pattern_matches handler.pattern subject ≡ false
any_matches-none [] subject e handler i = elim i [ ]
any_matches-none (m ∷ hs) subject e handler i =
    elim (Bool-cases (nats_pattern_matches m.pattern subject)) [
      | inl hit ↦ cc (rw hit at e)
      | inr miss ↦ elim i [
        | inl same ↦ rw same miss
        | inr j ↦ any_matches-none hs subject (rw miss at e) handler j
      ]
    ]

event_patterns-In :
    (hs : List MessageHandlerDef) (handler : MessageHandlerDef)
    → In handler hs
    → is_event handler.kind ≡ true
    → In handler.pattern (event_patterns hs)
event_patterns-In [] handler i e = elim i [ ]
event_patterns-In (m ∷ hs) handler (inl same) e =
    let mine : is_event m.kind ≡ true = rw same at e in rw mine (inl (rw same refl))
event_patterns-In (m ∷ hs) handler (inr i) e =
    let rest = event_patterns-In hs handler i e in
    elim (Bool-cases (is_event m.kind)) [ inl hit ↦ rw hit (inr rest) | inr miss ↦ rw miss rest ]

module _ (env : Surroundings) (options : NatsTransportOptions)
    (handlers : List MessageHandlerDef) where
  check-ok :
      (b : Bool) (text : String) (h : List RuntimeEffect) {u : Unit {0}} {h' : List RuntimeEffect}
      → check env options handlers b text h ≡ (ok u, h')
      → b ≡ true
  check-ok true text h e = refl
  check-ok false text h e = cc e

  check-history :
      (b : Bool) (text : String) (h : List RuntimeEffect) {u : Unit {0}} {h' : List RuntimeEffect}
      → check env options handlers b text h ≡ (ok u, h')
      → h' ≡ h
  check-history true text h e = ap (λ p. p.1) (sym e)
  check-history false text h e = cc e

  check_dead_letters-history :
      (place : Option String) (h : List RuntimeEffect) {u : Unit {0}} {h' : List RuntimeEffect}
      → check_dead_letters env options handlers place h ≡ (ok u, h')
      → h' ≡ h
  check_dead_letters-history none h e = ap (λ p. p.1) (sym e)
  check_dead_letters-history (some t) h e = check-history _ _ h e

  stream_name-ok :
      (o : Option String) (h : List RuntimeEffect) {name : String} {h' : List RuntimeEffect}
      → stream_name env options handlers o h ≡ (ok name, h')
      → (o ≡ some name) × (h' ≡ h)
  stream_name-ok none h e = cc e
  stream_name-ok (some n) h e = (cc (ap (λ p. p.0) e), ap (λ p. p.1) (sym e))

  service_of-history :
      (hs : List MessageHandlerDef) (h : List RuntimeEffect) {service : String}
      {h' : List RuntimeEffect}
      → service_of env options handlers hs h ≡ (ok service, h')
      → h' ≡ h
  service_of-history [] h e = ap (λ p. p.1) (sym e)
  service_of-history (x ∷ hs) h e = ap (λ p. p.1) (sym e)

  -- A start from the history `h` first asks for the stream of the options. The subjects that the broker
  -- then reports of it cover all of `subjects`, and the dead letters go to no handler.
  pub record IsSafe (h : List RuntimeEffect) (subjects : List String) : Type 0 where
    pub name : String
    pub named : options.jetstream_stream ≡ some name
    pub covered :
        (s : String)
        → In s subjects
        → IsCovered (env.stream_subjects (create_stream name subjects ∷ h)) s
    pub apart :
        (place : String)
        → options.dead_letter_subject ≡ some place
        → (valid_nats_subject place ≡ true)
          × ((handler : MessageHandlerDef)
              → In handler handlers
              → nats_pattern_matches handler.pattern place ≡ false)

  check_dead_letters-apart :
      (place : Option String) (h : List RuntimeEffect) {u : Unit {0}} {h' : List RuntimeEffect}
      → check_dead_letters env options handlers place h ≡ (ok u, h')
      → (s : String) → place ≡ some s
      → (valid_nats_subject s ≡ true)
        × ((handler : MessageHandlerDef)
            → In handler handlers
            → nats_pattern_matches handler.pattern s ≡ false)
  check_dead_letters-apart none h e s f = cc f
  check_dead_letters-apart (some t) h e s f =
      let same : t ≡ s = cc f in
      let both = check-ok (valid_nats_subject t && not (any_matches handlers t)) _ h e in
      let (valid, free) = and-eq-true (valid_nats_subject t) (not (any_matches handlers t)) both in
      let none_match : any_matches handlers t ≡ false = ground arith in
      subst
        (λ x.
          (valid_nats_subject x ≡ true)
          × ((handler : MessageHandlerDef)
              → In handler handlers
              → nats_pattern_matches handler.pattern x ≡ false))
        same (valid, any_matches-none handlers t none_match)

  start_events-IsSafe :
      (subjects : List String) (service : String) (h : List RuntimeEffect) {u : Unit {0}}
      {h' : List RuntimeEffect}
      → start_events env options handlers subjects service h ≡ (ok u, h')
      → (s : String) → In s subjects
      → IsSafe h subjects
  unfolding start_events
  start_events-IsSafe [] service h e s i = elim i [ ]
  start_events-IsSafe (t ∷ subjects) service h e s i =
      let place = options.dead_letter_subject in
      let (u1, h1, e1, k1) = continue-ok (check_dead_letters env options handlers place h) _ e in
      let (name, h2, e2, k2) =
        continue-ok (stream_name env options handlers options.jetstream_stream h1) _ k1 in
      let (u3, h3, e3, k3) =
        continue-ok (create_covering_stream env options handlers (t ∷ subjects) name h2) _ k2 in
      let (u4, h4, e4, k4) =
        continue-ok (ask env options handlers (create_stream name (t ∷ subjects)) h2) _ e3 in
      let (named, same) = stream_name-ok options.jetstream_stream h1 e2 in
      let asked : h4 ≡ create_stream name (t ∷ subjects) ∷ h =
        ap (λ p. p.1) (sym e4)
        ∙ ap (λ l. create_stream name (t ∷ subjects) ∷ l)
            (same ∙ check_dead_letters-history place h e1) in
      record {
        name = name;
        named = named;
        covered =
            subst (λ l. (x : String) → In x (t ∷ subjects) → IsCovered (env.stream_subjects l) x)
              asked
              (all_covered-IsCovered (env.stream_subjects h4) (t ∷ subjects)
                (check-ok (all_covered (env.stream_subjects h4) (t ∷ subjects)) _ h4 k4));
        apart = check_dead_letters-apart place h e1;
      }

  -- The subjects of the stream.
  abbrev pub all_subjects : List String
  all_subjects = event_patterns handlers ++ listed options.dead_letter_subject

  start_tasks-IsSafe :
      (h : List RuntimeEffect) {u : Unit {0}} {h' : List RuntimeEffect}
      → start_tasks env options handlers h ≡ (ok u, h')
      → (s : String) → In s all_subjects
      → IsSafe h all_subjects
  unfolding start_tasks start_handlers
  start_tasks-IsSafe h e s i =
      let (service, h1, e1, k1) = continue-ok (service_of env options handlers handlers h) _ e in
      let (u2, h2, e2, k2) =
        continue-ok (start_events env options handlers all_subjects service h1) _ k1 in
      subst (λ l. IsSafe l all_subjects) (service_of-history handlers h e1)
        (start_events-IsSafe all_subjects service h1 e2 s i)

-- When a start of a new runtime succeeds and there is an event handler or a dead-letter subject, then
-- the options name a stream; of what the broker reports of that stream, once it was asked for the event
-- patterns and the dead-letter subject, some subject covers each of these; and the dead-letter subject
-- has no wildcard and matches no handler.
pub start-IsSafe :
    (env : Surroundings) (options : NatsTransportOptions) (handlers : List MessageHandlerDef)
    (rt : Runtime) (h : List RuntimeEffect) (s : String)
    → rt.started ≡ false
    → (start env options handlers rt h).0 ≡ ok tt
    → In s (all_subjects env options handlers)
    → IsSafe env options handlers h (all_subjects env options handlers)
unfolding start
start-IsSafe env options handlers rt h s fresh e i = go rt.cancelled rt.started fresh e
  where
    go :
        (c b : Bool)
        → b ≡ false
        → (start_unless env options handlers c b rt h).0 ≡ ok tt
        → IsSafe env options handlers h (all_subjects env options handlers)
    go true b f e = cc e
    go false true f e = cc f
    go false false f e = done_start (start_tasks env options handlers h) refl e
      where
        done_start :
            (r : Result MicroserviceError (Unit {0}) × List RuntimeEffect)
            → start_tasks env options handlers h ≡ r
            → (started_by env options handlers rt r).0 ≡ ok tt
            → IsSafe env options handlers h (all_subjects env options handlers)
        done_start (ok u, h') f e = start_tasks-IsSafe env options handlers h f s i
        done_start (err m, h') f e = cc e
