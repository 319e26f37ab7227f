-- ===== src/Redis/Runtime/Plan.antt =====
-- crates/caelix-microservices/src/redis_transport.rs: what a run of `RedisRuntime` starts, in order.
use caelix.Prelude.{
  String, ◌≡◌, refl, sym, subst, inl, inr, Bool, true, false, Option, none, some, List, [], ◌∷◌,
  if◌then◌else◌, Bool-cases, has_text,
}
use caelix.Metadata.{MessageHandlerDef}
use caelix.Messages.{MicroserviceError, transport}
use caelix.Messages.Effects.{Result, ok, err, continue, note, ◌>>◌}
use caelix.Redis.{RedisTransportOptions, command_stream, command_group, event_group}
use caelix.Redis.Broker.Events.{is_event}
use caelix.Redis.Runtime.{
  TaskEffect, xgroup_create, spawn_command_loop, spawn_event_loop, Host, RedisStep, group_result,
  any_event, create_group, start_command_loop, start_command_loops, start_event_loop, start_loops,
}

abbrev pub Ran : Type 0
Ran = Result MicroserviceError (Unit {0}) × List TaskEffect

-- `IsPart h l`: the history `l` is `h` with later effects.
pub data IsPart (h : List TaskEffect) : List TaskEffect → Type 0 where
  whole : IsPart h h
  later : {x : TaskEffect} {l : List TaskEffect} → IsPart h l → IsPart h (x ∷ l)

IsPart-trans : {a b c : List TaskEffect} → IsPart a b → IsPart b c → IsPart a c
IsPart-trans p whole = p
IsPart-trans p (later q) = later (IsPart-trans p q)

module _ (env : Host) where
  -- The last effect is a group that the broker refused, for another reason than that it exists.
  abbrev pub IsRefused : MicroserviceError → List TaskEffect → Type 0
  IsRefused e h =
      (stream : String) × (group : String) × (before : List TaskEffect) × (text : String) × (h
        ≡ xgroup_create stream group ∷ before)
      × (env.answer before (xgroup_create stream group) ≡ some text)
      × (has_text "BUSYGROUP" text ≡ false)
      × (e ≡ transport text)

  -- A success has done all of a plan, a failure a part of it.
  abbrev pub Planned : Ran → List TaskEffect → Type 0
  Planned (ok u, h) p = h ≡ p
  Planned (err e, h) p = IsPart h p × IsRefused e h

  Planned-continue :
      (m : Ran) (f : Unit {0} → RedisStep (Unit {0})) (p q : List TaskEffect)
      → Planned m p
      → IsPart p q
      → ((u : Unit {0}) → Planned (f u p) q)
      → Planned (continue m f) q
  Planned-continue (ok u, h) f p q e part k = subst (λ l. Planned (f u l) q) (sym e) (k u)
  Planned-continue (err e, h) f p q (part, why) part' k = (IsPart-trans part part', why)

  group_result-Planned :
      (stream group : String) (h : List TaskEffect) (o : Option String)
      → env.answer h (xgroup_create stream group) ≡ o
      → Planned (group_result o, xgroup_create stream group ∷ h) (xgroup_create stream group ∷ h)
  group_result-Planned stream group h none a = refl
  group_result-Planned stream group h (some text) a =
      elim (Bool-cases (has_text "BUSYGROUP" text)) [
        | inl exists ↦ rw exists refl
        | inr other ↦ rw other (whole, (stream, group, h, text, refl, a, other, refl))
      ]

module _ (env : Host) (options : RedisTransportOptions) where
  abbrev pub one_loop : String → MessageHandlerDef → List TaskEffect → List TaskEffect
  one_loop service handler h =
      spawn_command_loop handler service env.consumer
      ∷ xgroup_create (command_stream env.sha256 handler.pattern)
          (command_group env.sha256 service handler.pattern)
      ∷ h

  abbrev pub command_plan : String → List MessageHandlerDef → List TaskEffect → List TaskEffect
  command_plan service [] h = h
  command_plan service (handler ∷ hs) h =
      command_plan service hs (if is_event handler.kind then h else one_loop service handler h)

  abbrev pub event_plan : Bool → String → List TaskEffect → List TaskEffect
  event_plan false service h = h
  event_plan true service h =
      spawn_event_loop service env.consumer
      ∷ xgroup_create options.event_stream (event_group env.sha256 service)
      ∷ h

  -- The group and the loop of each command, and those of all events, the newest first.
  abbrev pub plan : String → List MessageHandlerDef → List TaskEffect
  plan service handlers = event_plan (any_event handlers) service (command_plan service handlers [])

  command_plan-IsPart :
      (service : String) (hs : List MessageHandlerDef) (h : List TaskEffect)
      → IsPart h (command_plan service hs h)
  command_plan-IsPart service [] h = whole
  command_plan-IsPart service (k ∷ hs) h = elim (Bool-cases (is_event k.kind)) [
    | inl ev ↦ rw ev (command_plan-IsPart service hs h)
    | inr cmd ↦
        rw cmd (
          IsPart-trans (later (later whole))
            (command_plan-IsPart service hs (one_loop service k h)))
  ]

  event_plan-IsPart :
      (b : Bool) (service : String) (h : List TaskEffect) → IsPart h (event_plan b service h)
  event_plan-IsPart false service h = whole
  event_plan-IsPart true service h = later (later whole)

  module _ (handlers : List MessageHandlerDef) where
    group_then-Planned :
        (x : TaskEffect) (stream group : String) (h : List TaskEffect)
        → Planned env
            ((create_group env options handlers stream group >> note x) h)
            (x ∷ xgroup_create stream group ∷ h)
    group_then-Planned x stream group h =
        let grouped = xgroup_create stream group ∷ h in
        Planned-continue env (create_group env options handlers stream group h) (λ _. note x)
          grouped (x ∷ grouped) (group_result-Planned env stream group h _ refl) (later whole)
          (λ u. refl)

    command_loops-Planned :
        (service : String) (hs : List MessageHandlerDef) (h : List TaskEffect)
        → Planned env
            (start_command_loops env options handlers service hs h)
            (command_plan service hs h)
    command_loops-Planned service [] h = refl
    command_loops-Planned service (k ∷ hs) h = elim (Bool-cases (is_event k.kind)) [
      | inl ev ↦ rw ev (command_loops-Planned service hs h)
      | inr cmd ↦
          let after = one_loop service k h in
          let part = command_plan-IsPart service hs after in
          rw cmd (
            Planned-continue env (start_command_loop env options handlers service k h)
              (λ _. start_command_loops env options handlers service hs) after
              (command_plan service hs after)
              (group_then-Planned (spawn_command_loop k service env.consumer)
                (command_stream env.sha256 k.pattern) (command_group env.sha256 service k.pattern)
                h)
              part (λ u. command_loops-Planned service hs after))
    ]

    event_loop-Planned :
        (b : Bool) (service : String) (h : List TaskEffect)
        → Planned env (start_event_loop env options handlers b service h) (event_plan b service h)
    event_loop-Planned false service h = refl
    event_loop-Planned true service h =
        group_then-Planned (spawn_event_loop service env.consumer) options.event_stream
          (event_group env.sha256 service) h

    pub loops-Planned :
        (service : String)
        → Planned env (start_loops env options handlers service []) (plan service handlers)
    loops-Planned service =
        let commands = command_plan service handlers [] in
        Planned-continue env (start_command_loops env options handlers service handlers [])
          (λ _. start_event_loop env options handlers (any_event handlers) service) commands
          (plan service handlers) (command_loops-Planned service handlers [])
          (event_plan-IsPart (any_event handlers) service commands)
          (λ u. event_loop-Planned (any_event handlers) service commands)
