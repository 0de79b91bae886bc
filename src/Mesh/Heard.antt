-- ===== src/Mesh/Heard.antt =====
-- main/sensors/sensor_mqtt.c: from the start on, a tool runs only after the Guardian's decision came.
use esp32_agent_mesh.Prelude.{
  Bool-cases, Option-cases, All, All-set, Bytes, codes, str_eq, str_eq_iff, EspErr, ℕ, ◌%◌, ◌≡◌,
  refl, sym, subst, ◌⊎◌, inl, inr, Bool, true, false, Option, none, some, List, [], ◌∷◌,
}
use esp32_agent_mesh.Mesh.Json.{JsonApi, parse_object, json_string}
use esp32_agent_mesh.Mesh.Command.{MeshCommand}
use esp32_agent_mesh.Mesh.Outputs.{OutputCache}
use esp32_agent_mesh.Mesh.Decisions.{
  CachedDecision, PolicyCache, policy_cache_depth, cached, note_decision,
  policy_payload_is_decision, note_printed, note_named, policy_cache_store_json, store_root,
  policy_cache_maybe_store_payload,
}
use esp32_agent_mesh.Mesh.Guardian.{Reason, PolicyCheck}
use esp32_agent_mesh.Mesh.Control.{ControlTool}
use esp32_agent_mesh.Mesh.Stateboard.{Outlet}
use esp32_agent_mesh.Mesh.Announce.{MeshTopics}
use esp32_agent_mesh.Mesh.Inbound.{
  Caches, NodeEffect, Moment, obey, keep_output, keep_decision, dispatch_message, caches_after,
}

module _ (api : JsonApi) where
  open api use {Json, print}

  -- A text that is a decision on a command.
  pub record Decides (msg id json : Bytes) : Type 0 where
    pub root : Json
    pub parsed : parse_object api msg ≡ some root
    pub is_decision : policy_payload_is_decision api root ≡ true
    pub named : json_string api root (codes "command_id") ≡ some id
    pub printed : print root ≡ some json

  note_named-cases :
      (taken : Bool) (ts_ms : ℕ) (root : Json) (id : Option Bytes) (c : PolicyCache)
      → (note_named api taken ts_ms root id c ≡ c)
        ⊎ ((i : Bytes) × (json : Bytes) × (id ≡ some i)
            × (print root ≡ some json)
            × (note_named api taken ts_ms root id c ≡ note_decision ts_ms i json c))
  unfolding note_named note_printed
  note_named-cases taken ts_ms root none c = inl refl
  note_named-cases taken ts_ms root (some []) c = inl refl
  note_named-cases false ts_ms root (some (b ∷ bs)) c = elim (Option-cases (print root)) [
    | inl e ↦ inl (rw e refl)
    | inr (json, e) ↦ inl (rw e refl)
  ]
  note_named-cases true ts_ms root (some (b ∷ bs)) c = elim (Option-cases (print root)) [
    | inl e ↦ inl (rw e refl)
    | inr (json, e) ↦ inr (b ∷ bs, json, refl, e, rw e refl)
  ]

  store-cases :
      (made taken : Bool) (ts_ms : ℕ) (msg : Bytes) (c : PolicyCache)
      → (policy_cache_maybe_store_payload api made taken ts_ms msg c ≡ c)
        ⊎ ((id : Bytes) × (json : Bytes) × Decides msg id json
            × (policy_cache_maybe_store_payload api made taken ts_ms msg c
                ≡ note_decision ts_ms id json c))
  unfolding policy_cache_maybe_store_payload store_root policy_cache_store_json
  store-cases made taken ts_ms [] c = inl refl
  store-cases false taken ts_ms (b ∷ bs) c = elim (Option-cases (parse_object api (b ∷ bs))) [
    | inl e ↦ inl (rw e refl)
    | inr (root, e) ↦ elim (Bool-cases (policy_payload_is_decision api root)) [
      | inl d ↦ inl (rw (e, d) refl)
      | inr d ↦ inl (rw (e, d) refl)
    ]
  ]
  store-cases true taken ts_ms (b ∷ bs) c = elim (Option-cases (parse_object api (b ∷ bs))) [
    | inl e ↦ inl (rw e refl)
    | inr (root, e) ↦ elim (Bool-cases (policy_payload_is_decision api root)) [
      | inr d ↦ inl (rw (e, d) refl)
      | inl d ↦
          elim (note_named-cases taken ts_ms root (json_string api root (codes "command_id")) c) [
            | inl same ↦ inl (rw (e, d) same)
            | inr (i, json, n, p, noted) ↦ inr (
              i,
              json,
              record { root = root; parsed = e; is_decision = d; named = n; printed = p },
              rw (e, d) noted,
            )
          ]
    ]
  ]

  -- Where what a cell holds comes from.
  pub record StemsFrom (Q : Bytes → Type 0) (item : CachedDecision) : Type 0 where
    pub msg : Bytes
    pub id : Bytes
    pub json : Bytes
    pub ts_ms : ℕ
    pub heard : Q msg
    pub decides : Decides msg id json
    pub item_is : item ≡ cached ts_ms id json

  abbrev pub AllStem : (Bytes → Type 0) → PolicyCache → Type 0
  AllStem Q c = All (λ item. item.used ≡ true → StemsFrom Q item) c.cells

  AllStem-store :
      (Q : Bytes → Type 0) (made taken : Bool) (ts_ms : ℕ) (msg : Bytes) (c : PolicyCache)
      → Q msg
      → AllStem Q c
      → AllStem Q (policy_cache_maybe_store_payload api made taken ts_ms msg c)
  AllStem-store Q made taken ts_ms msg c q a = elim (store-cases made taken ts_ms msg c) [
    | inl same ↦ rw same a
    | inr (id, json, d, noted) ↦ rw noted (
        unfold note_decision in
        All-set (λ item. item.used ≡ true → StemsFrom Q item) c.cells (c.next % policy_cache_depth)
          (cached ts_ms id json)
          (λ u. record {
            msg = msg;
            id = id;
            json = json;
            ts_ms = ts_ms;
            heard = q;
            decides = d;
            item_is = refl;
          })
          a)
  ]

  module _ (sensor : EspErr) (execute : ControlTool → Bytes → EspErr)
      (encode : Reason → PolicyCheck → Option Bytes)
      (report : MeshCommand → EspErr → OutputCache → OutputCache) (o : Outlet Json)
      (topics : MeshTopics) where
    abbrev on : Moment → Bytes → Bytes → Caches → List NodeEffect × Caches
    on = dispatch_message api sensor execute encode report o topics

    -- Only a message on the topic of decisions changes the cache of decisions.
    dispatch-decisions :
        (now : Moment) (topic msg : Bytes) (c : Caches)
        → ((on now topic msg c).1.decisions ≡ c.decisions)
          ⊎ ((topic ≡ topics.policy_decision)
              × ((on now topic msg c).1.decisions
                  ≡ policy_cache_maybe_store_payload api now.policy_made now.policy_taken now.ts_ms
                      msg c.decisions))
    unfolding dispatch_message obey keep_output keep_decision
    dispatch-decisions now topic msg c = elim (Bool-cases (str_eq topic topics.command)) [
      | inl e ↦ inl (rw e refl)
      | inr e₁ ↦ elim (Bool-cases (str_eq topic topics.role_command)) [
        | inl e ↦ inl (rw (e₁, e) refl)
        | inr e₂ ↦ elim (Bool-cases (str_eq topic topics.dispatch)) [
          | inl e ↦ inl (rw (e₁, e₂, e) refl)
          | inr e₃ ↦ elim (Bool-cases (str_eq topic topics.alerts)) [
            | inl e ↦ inl (rw (e₁, e₂, e₃, e) refl)
            | inr e₄ ↦ elim (Bool-cases (str_eq topic topics.timeline)) [
              | inl e ↦ inl (rw (e₁, e₂, e₃, e₄, e) refl)
              | inr e₅ ↦ elim (Bool-cases (str_eq topic topics.policy_check)) [
                | inl e ↦ inl (rw (e₁, e₂, e₃, e₄, e₅, e) refl)
                | inr e₆ ↦ elim (Bool-cases (str_eq topic topics.policy_decision)) [
                  | inl e ↦ inr (
                    (str_eq_iff topic topics.policy_decision).0 e,
                    rw (e₁, e₂, e₃, e₄, e₅, e₆, e) refl,
                  )
                  | inr e₇ ↦ inl (rw (e₁, e₂, e₃, e₄, e₅, e₆, e₇) refl)
                ]
              ]
            ]
          ]
        ]
      ]
    ]

    AllStem-dispatch_message :
        (Q : Bytes → Type 0) (now : Moment) (topic msg : Bytes) (c : Caches)
        → (topic ≡ topics.policy_decision → Q msg)
        → AllStem Q c.decisions
        → AllStem Q (on now topic msg c).1.decisions
    AllStem-dispatch_message Q now topic msg c q a = elim (dispatch-decisions now topic msg c) [
      | inl same ↦ subst (AllStem Q) (sym same) a
      | inr (e, stored) ↦
          subst (AllStem Q) (sym stored)
            (AllStem-store Q now.policy_made now.policy_taken now.ts_ms msg c.decisions (q e) a)
    ]

    pub AllStem-after :
        (Q : Bytes → Type 0) (ms : List (Moment × Bytes × Bytes)) (c : Caches)
        → All (λ m. m.1 ≡ topics.policy_decision → Q m.2) ms
        → AllStem Q c.decisions
        → AllStem Q (caches_after api sensor execute encode report o topics ms c).decisions
    AllStem-after Q [] c q a = a
    AllStem-after Q ((now, topic, msg) ∷ ms) c (q, qs) a =
        AllStem-after Q ms (on now topic msg c).1 qs
          (AllStem-dispatch_message Q now topic msg c q a)
