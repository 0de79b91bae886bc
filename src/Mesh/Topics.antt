-- ===== src/Mesh/Topics.antt =====
-- main/mesh/mesh_protocol.c: topics are whole or refused, and lead to one receiver.
use esp32_agent_mesh.Prelude.{
  ltb, ◌==◌, Bool-cases, length, All, Bytes, codes, is_empty, copy_field_whole, ok, ℕ, ◌≡◌, refl,
  sym, ap, ◌∙◌, ◌≢◌, inl, inr, ◌||◌, [], ◌∷◌, ◌++◌, arith,
}
use esp32_agent_mesh.Mesh.Command.{build_topic, build_node_topic, build_role_topic}

abbrev topic_text : Bytes → Bytes → Bytes → Bytes → Bytes
topic_text prefix kind name suffix = prefix ++ (kind ++ (name ++ (codes "/" ++ suffix)))

-- A topic that is reported as built is the whole text, and it fits the buffer with its end mark.
build_topic-whole :
    (prefix kind name suffix : Bytes) (size : ℕ)
    → (build_topic prefix kind name suffix size).0 ≡ ok
    → (build_topic prefix kind name suffix size).1 ≡ topic_text prefix kind name suffix
unfolding build_topic
build_topic-whole prefix kind name suffix size h =
    let text = topic_text prefix kind name suffix in
    elim (Bool-cases (is_empty name || is_empty suffix || size == 0)) [
      | inl bad ↦ absurd (cc (rw bad at h))
      | inr good ↦ elim (Bool-cases (ltb (length text) size)) [
        | inl fits ↦ rw good (copy_field_whole size text (ground (arith, fits)))
        | inr long ↦ absurd (cc (rw (good, long) at h))
      ]
    ]

append_cancel : (p a b : Bytes) → p ++ a ≡ p ++ b → a ≡ b
append_cancel [] a b h = h
append_cancel (x ∷ xs) a b h = append_cancel xs a b (cc h)

-- Names without a slash, so that a topic's levels can be told apart.
abbrev pub IsLevel : Bytes → Type 0
IsLevel = All (λ c. c ≢ b'/')

level_cancel :
    (n m s t : Bytes)
    → IsLevel n
    → IsLevel m
    → n ++ (codes "/" ++ s) ≡ m ++ (codes "/" ++ t)
    → (n ≡ m) × (s ≡ t)
level_cancel [] [] s t a b h = (refl, cc h)
level_cancel [] (y ∷ ys) s t a b h = absurd (b.0 (cc h))
level_cancel (x ∷ xs) [] s t a b h = absurd (a.0 (cc h))
level_cancel (x ∷ xs) (y ∷ ys) s t a b h =
    let (n, r) = level_cancel xs ys s t a.1 b.1 (cc h) in (cc (n, h), r)

-- Two node topics that were built, of node ids without a slash and under one prefix, are the same
-- only for the same node and the same suffix.
pub build_node_topic-injective :
    (prefix n m s t : Bytes) (size1 size2 : ℕ)
    → IsLevel n
    → IsLevel m
    → (build_node_topic prefix n s size1).0 ≡ ok
    → (build_node_topic prefix m t size2).0 ≡ ok
    → (build_node_topic prefix n s size1).1 ≡ (build_node_topic prefix m t size2).1
    → (n ≡ m) × (s ≡ t)
unfolding build_node_topic
build_node_topic-injective prefix n m s t size1 size2 a b g h e =
    let whole1 = build_topic-whole prefix (codes "/nodes/") n s size1 g in
    let whole2 = build_topic-whole prefix (codes "/nodes/") m t size2 h in
    let same =
      append_cancel prefix (codes "/nodes/" ++ (n ++ (codes "/" ++ s)))
        (codes "/nodes/" ++ (m ++ (codes "/" ++ t))) (sym whole1 ∙ e ∙ whole2) in
    level_cancel n m s t a b
      (append_cancel (codes "/nodes/") (n ++ (codes "/" ++ s)) (m ++ (codes "/" ++ t)) same)

abbrev second_code : Bytes → ℕ
second_code (b ∷ c ∷ cs) = c
second_code _ = 0

kinds_differ : (a b : Bytes) → codes "/nodes/" ++ a ≢ codes "/roles/" ++ b
kinds_differ a b e =
    let different : second_code (codes "/nodes/" ++ a) ≡ second_code (codes "/roles/" ++ b) =
      ap second_code e in
    absurd (omega (arith, different))

-- No node topic that was built is a role topic that was built under the same prefix, whatever the
-- names and suffixes.
pub build_node_topic-role :
    (prefix n r s t : Bytes) (size1 size2 : ℕ)
    → (build_node_topic prefix n s size1).0 ≡ ok
    → (build_role_topic prefix r t size2).0 ≡ ok
    → (build_node_topic prefix n s size1).1 ≢ (build_role_topic prefix r t size2).1
unfolding build_node_topic build_role_topic
build_node_topic-role prefix n r s t size1 size2 g h e =
    let whole1 = build_topic-whole prefix (codes "/nodes/") n s size1 g in
    let whole2 = build_topic-whole prefix (codes "/roles/") r t size2 h in
    let same =
      append_cancel prefix (codes "/nodes/" ++ (n ++ (codes "/" ++ s)))
        (codes "/roles/" ++ (r ++ (codes "/" ++ t))) (sym whole1 ∙ e ∙ whole2) in
    absurd (kinds_differ (n ++ (codes "/" ++ s)) (r ++ (codes "/" ++ t)) same)
