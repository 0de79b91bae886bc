-- ===== src/Mesh/Allowed.antt =====
-- main/sensors/sensor_mqtt.c: a run of a tool on a node that just started has a decision before it.
use esp32_agent_mesh.Prelude.{
  Bool-cases, get_elem?, replicate, All, All-mono, find?, Bytes, str_eq, str_eq_iff, copy_field,
  copy_field_fits, copy_field_whole, EspErr, ℕ, zero, suc, ◌≡◌, refl, sym, ap, subst, ◌∙◌, ◌≢◌, ◌⊎◌,
  inl, inr, Bool, true, false, Option, some, List, [], ◌∷◌, map, arith,
}
use esp32_agent_mesh.Node.Roles.{role_is_control}
use esp32_agent_mesh.Mesh.Json.{JsonApi, parse_object}
use esp32_agent_mesh.Mesh.Command.{MeshCommand, mesh_id_max, no_command, parse_command}
use esp32_agent_mesh.Mesh.Outputs.{OutputCache}
use esp32_agent_mesh.Mesh.Decisions.{
  CachedDecision, PolicyCache, policy_json_size, is_decision_on, decision_on,
}
use esp32_agent_mesh.Mesh.Guardian.{
  Reason, PolicyCheck, GuardianEffect, handle_guardian_policy_check,
}
use esp32_agent_mesh.Mesh.Control.{ControlTool, MeshEffect}
use esp32_agent_mesh.Mesh.Stateboard.{Outlet}
use esp32_agent_mesh.Mesh.Announce.{MeshTopics}
use esp32_agent_mesh.Mesh.Audit.{guardian_audit_timeline_payload}
use esp32_agent_mesh.Mesh.Safety.{
  tools_run, IsCached, Allows, IsLicensed, handle_mesh_command-IsLicensed,
}
use esp32_agent_mesh.Mesh.Heard.{Decides, StemsFrom, AllStem-after}
use esp32_agent_mesh.Mesh.Inbound.{
  Caches, no_cached, NodeEffect, obeys, judges, audits, Moment, command_effects, obey,
  dispatch_message, caches_after,
}

abbrev pub obeyed : List NodeEffect → List MeshEffect
obeyed [] = []
obeyed (obeys e ∷ es) = e ∷ obeyed es
obeyed (_ ∷ es) = obeyed es

obeyed-obeys : (es : List MeshEffect) → obeyed (map obeys es) ≡ es
obeyed-obeys [] = refl
obeyed-obeys (e ∷ es) = ap (◌∷◌ e) (obeyed-obeys es)

obeyed-judges : (es : List GuardianEffect) → obeyed (map judges es) ≡ []
obeyed-judges [] = refl
obeyed-judges (e ∷ es) = obeyed-judges es

obeyed-audits :
    (ms : List (Bytes × Bytes)) → obeyed (map (λ (m : Bytes × Bytes). audits m.0 m.1) ms) ≡ []
obeyed-audits [] = refl
obeyed-audits (m ∷ ms) = obeyed-audits ms

IsCached-replicate :
    (n : ℕ) (id json : Bytes) (c : PolicyCache)
    → IsCached id (replicate n c) json
    → (item : CachedDecision) × (decision_on id c ≡ some item)
      × (copy_field policy_json_size item.decision_json ≡ json)
IsCached-replicate zero id json c h = elim h [ ]
IsCached-replicate (suc n) id json c (inl found) = found
IsCached-replicate (suc n) id json c (inr h) = IsCached-replicate n id json c h

find?-holds :
    {A : Type 0} (test : A → Bool) (P : A → Type 0) (xs : List A) (a : A)
    → All P xs
    → find? test xs ≡ some a
    → (test a ≡ true) × P a
unfolding find?
find?-holds test P [] a h e = absurd (cc e)
find?-holds test P (x ∷ xs) a (p, h) e = elim (Bool-cases (test x)) [
  | inl hit ↦
      let same : x ≡ a = ground (arith, rw hit at e) in (ap test (sym same) ∙ hit, subst P same p)
  | inr miss ↦ find?-holds test P xs a h (rw miss at e)
]

All-places : {A : Type 0} (xs : List A) → All (λ x. (i : ℕ) × (get_elem? xs i ≡ some x)) xs
All-places [] = tt
All-places (x ∷ xs) = (
  (0, refl),
  All-mono (λ y. (i : ℕ) × (get_elem? xs i ≡ some y)) _ xs (λ y (i, e). (suc i, e)) (All-places xs),
)

module _ (api : JsonApi) (sensor : EspErr) (execute : ControlTool → Bytes → EspErr)
    (encode : Reason → PolicyCheck → Option Bytes)
    (report : MeshCommand → EspErr → OutputCache → OutputCache) (o : Outlet api.Json)
    (topics : MeshTopics) where
  abbrev on : Moment → Bytes → Bytes → Caches → List NodeEffect × Caches
  on = dispatch_message api sensor execute encode report o topics

  not_obeyed :
      (now : Moment) (topic msg : Bytes) (c : Caches)
      → str_eq topic topics.command ≡ false
      → str_eq topic topics.role_command ≡ false
      → obeyed (on now topic msg c).0 ≡ []
  unfolding dispatch_message
  not_obeyed now topic msg c e₁ e₂ = elim (Bool-cases (str_eq topic topics.dispatch)) [
    | inl e ↦ rw (e₁, e₂, e) refl
    | inr e₃ ↦ elim (Bool-cases (str_eq topic topics.alerts)) [
      | inl e ↦ rw (e₁, e₂, e₃, e) refl
      | inr e₄ ↦ elim (Bool-cases (str_eq topic topics.timeline)) [
        | inl e ↦
            rw (e₁, e₂, e₃, e₄, e)
              (obeyed-audits (guardian_audit_timeline_payload api o topics now.ts_ms msg))
        | inr e₅ ↦ elim (Bool-cases (str_eq topic topics.policy_check)) [
          | inl e ↦
              rw (e₁, e₂, e₃, e₄, e₅, e)
                (obeyed-judges (
                  handle_guardian_policy_check api encode topics.policy_decision topics.events o.me
                    msg))
          | inr e₆ ↦ elim (Bool-cases (str_eq topic topics.policy_decision)) [
            | inl e ↦ rw (e₁, e₂, e₃, e₄, e₅, e₆, e) refl
            | inr e₇ ↦ rw (e₁, e₂, e₃, e₄, e₅, e₆, e₇) refl
          ]
        ]
      ]
    ]
  ]

  dispatch-obeyed :
      (now : Moment) (topic msg : Bytes) (c : Caches)
      → tools_run (obeyed (on now topic msg c).0) ≢ []
      → ((topic ≡ topics.command) ⊎ (topic ≡ topics.role_command))
        × (tools_run (command_effects api sensor execute encode report o topics now msg c) ≢ [])
  unfolding dispatch_message obey
  dispatch-obeyed now topic msg c h =
      let es = command_effects api sensor execute encode report o topics now msg c in
      elim (Bool-cases (str_eq topic topics.command)) [
        | inl e ↦ (
          inl ((str_eq_iff topic topics.command).0 e),
          λ n. h (rw e (ap tools_run (obeyed-obeys es) ∙ n)),
        )
        | inr e₁ ↦ elim (Bool-cases (str_eq topic topics.role_command)) [
          | inl e ↦ (
            inr ((str_eq_iff topic topics.role_command).0 e),
            λ n. h (rw (e₁, e) (ap tools_run (obeyed-obeys es) ∙ n)),
          )
          | inr e₂ ↦ absurd (h (ap tools_run (not_obeyed now topic msg c e₁ e₂)))
        ]
      ]

  -- A message on the topic of decisions that lets a command go.
  pub record HasDecision (ms : List (Moment × Bytes × Bytes)) (cmd : MeshCommand) : Type 0 where
    pub place : ℕ
    pub when : Moment
    pub message : Bytes
    pub came : get_elem? ms place ≡ some (when, topics.policy_decision, message)
    pub id : Bytes
    pub json : Bytes
    pub decides : Decides api message id json
    pub same_id : copy_field mesh_id_max id ≡ cmd.command_id
    pub root : api.Json
    pub parsed : parse_object api (copy_field policy_json_size json) ≡ some root
    pub allowed : Allows api o.me cmd root

  HasDecision-licence :
      (ms : List (Moment × Bytes × Bytes)) (n : ℕ) (cmd : MeshCommand) (c : PolicyCache)
      → All
          (λ item.
            item.used ≡ true
            → StemsFrom api
                (λ m.
                  (i : ℕ) × (t : Moment) × (get_elem? ms i ≡ some (t, topics.policy_decision, m)))
                item)
          c.cells
      → IsLicensed api o.me (replicate n c) cmd
      → HasDecision ms cmd
  unfolding decision_on
  HasDecision-licence ms n cmd c a l =
      let (item, found, cut) = IsCached-replicate n cmd.command_id l.json c l.was_cached in
      let (hit, stem) = find?-holds (is_decision_on cmd.command_id) _ c.cells item a found in
      let used : item.used ≡ true = ground (arith, hit) in
      let named : str_eq item.command_id cmd.command_id ≡ true = ground (arith, hit) in
      let s = stem used in
      let (i, t, at) = s.heard in
      let text = copy_field policy_json_size s.json in
      let whole : copy_field policy_json_size text ≡ text =
        copy_field_whole policy_json_size text
          (copy_field_fits policy_json_size s.json (omega arith)) in
      let read : l.json ≡ text =
        sym cut
        ∙ ap (λ (x : CachedDecision). copy_field policy_json_size x.decision_json) s.item_is
        ∙ whole in
      record {
        place = i;
        when = t;
        message = s.msg;
        came = at;
        id = s.id;
        json = s.json;
        decides = s.decides;
        same_id =
            sym (ap (λ (x : CachedDecision). x.command_id) s.item_is)
            ∙ (str_eq_iff item.command_id cmd.command_id).0 named;
        root = l.root;
        parsed = ap (parse_object api) (sym read) ∙ l.is_parsed;
        allowed = l.allowed;
      }

  -- On a node that started with empty caches and has dealt with a sequence of messages, the next
  -- message makes it run a tool only if it is a control node, the message is on one of the two topics
  -- of commands, and one of the messages before it was, on the topic of decisions, a decision for the
  -- command's id whose text, as far as it was kept, allows this command on this node.
  pub dispatch_message-HasDecision :
      (ms : List (Moment × Bytes × Bytes)) (now : Moment) (topic msg : Bytes)
      → tools_run (
          obeyed
            (on now topic msg
              (caches_after api sensor execute encode report o topics ms no_cached)).0)
        ≢ []
      → ((topic ≡ topics.command) ⊎ (topic ≡ topics.role_command))
        × (role_is_control o.me ≡ true)
        × HasDecision ms (parse_command api o.me msg no_command).1
  unfolding command_effects
  dispatch_message-HasDecision ms now topic msg h =
      let c = caches_after api sensor execute encode report o topics ms no_cached in
      let (where_to, ran) = dispatch-obeyed now topic msg c h in
      let licence =
        handle_mesh_command-IsLicensed api sensor execute o.me now.policy_made
          (replicate now.looks c.decisions) msg ran in
      let places =
        All-mono _
          (λ m.
            m.1 ≡ topics.policy_decision
            → (i : ℕ) × (t : Moment) × (get_elem? ms i ≡ some (t, topics.policy_decision, m.2)))
          ms (λ m (i, e) s. (i, m.0, e ∙ ap (λ s. some (m.0, s, m.2)) s)) (All-places ms) in
      let stems = AllStem-after api sensor execute encode report o topics _ ms no_cached places (
        λ u. absurd (cc u),
        (
          λ u. absurd (cc u),
          (
            λ u. absurd (cc u),
            (
              λ u. absurd (cc u),
              (
                λ u. absurd (cc u),
                (λ u. absurd (cc u), (λ u. absurd (cc u), (λ u. absurd (cc u), tt))),
              ),
            ),
          ),
        ),
      ) in
      (
        where_to,
        licence.on_control,
        HasDecision-licence ms now.looks (parse_command api o.me msg no_command).1 c.decisions stems
            licence,
      )
