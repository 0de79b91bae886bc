-- ===== src/Memory/Recent.antt =====
-- main/memory/session_mgr.c: the ring holds the last messages of the file, oldest first.
use native.Mathlib.Nat.{mod-add-mod, mod-lt}
use esp32_agent_mesh.Prelude.{
  ltb, Bool-cases, Option-cases, length, get_elem?, set, drop, length-append, length-set, Bytes, ℕ,
  zero, suc, ◌+◌, ◌-◌, ◌%◌, ◌≤◌, ◌<◌, min, ◌≡◌, refl, sym, ap, ap₂, subst, ◌∙◌, ◌≢◌, inl, inr,
  Option, none, some, List, [], ◌∷◌, ◌++◌, map, append_assoc, append-nil, arith,
}
use esp32_agent_mesh.Prelude.Ring.{
  mod_ne, mod_small, mod_around, get_elem?-snoc, drop_end, drop_step,
}
use esp32_agent_mesh.Mesh.Json.{JsonApi}
use esp32_agent_mesh.Memory.History.{
  Ring, session_max_msgs, no_messages, push_message, cell_at, collect_cells, kept_messages,
  parsed_line, push_lines,
}

module _ {J : Type 0} where
  cell_at-set_self :
      (cs : List (Option J)) (i : ℕ) (v : Option J) → i < length cs → cell_at (set cs i v) i ≡ v
  cell_at-set_self [] i v h = elim h [ ]
  cell_at-set_self (c ∷ cs) zero v h = refl
  cell_at-set_self (c ∷ cs) (suc i) v h = cell_at-set_self cs i v (omega arith)

  cell_at-set_ne :
      (cs : List (Option J)) (i j : ℕ) (v : Option J)
      → j ≢ i
      → cell_at (set cs i v) j ≡ cell_at cs j
  cell_at-set_ne [] i j v h = refl
  cell_at-set_ne (c ∷ cs) zero zero v h = absurd (h refl)
  cell_at-set_ne (c ∷ cs) zero (suc j) v h = refl
  cell_at-set_ne (c ∷ cs) (suc i) zero v h = refl
  cell_at-set_ne (c ∷ cs) (suc i) (suc j) v h = cell_at-set_ne cs i j v (λ e. h (ap suc e))

  -- The ring after the messages of a list.
  record Holds (n : ℕ) (xs : List J) (r : Ring J) : Type 0 where
    room : length r.messages ≡ session_max_msgs
    at : r.write_idx ≡ length xs % n
    many : r.count ≡ min (length xs) n
    last :
        (t : ℕ) (x : J)
        → get_elem? xs t ≡ some x
        → length xs ≤ t + n
        → cell_at r.messages (t % n) ≡ some x

  module _ (n : ℕ) (some_room : 0 < n) (in_room : n ≤ session_max_msgs) where
    Holds-push :
        (xs : List J) (x : J) (r : Ring J)
        → Holds n xs r
        → Holds n (xs ++ x ∷ []) (push_message n x r)
    unfolding push_message
    Holds-push xs x r h =
        let k = length xs in
        let more : length (xs ++ x ∷ []) ≡ k + 1 = omega (arith, length-append xs (x ∷ [])) in
        record {
          room = length-set r.messages r.write_idx (some x) ∙ h.room;
          at =
              ap (λ (i : ℕ). (i + 1) % n) h.at
              ∙ (mod-add-mod k n 1 ∙ ap (λ (i : ℕ). i % n) (sym more));
          many = ground (arith, h.many, more);
          last = λ t y e near. elim (get_elem?-snoc xs x y t e) [
            | inl (l, old) ↦
                let other : t % n ≢ r.write_idx =
                  λ e. mod_ne n t k l (omega (arith, more)) (e ∙ h.at) in
                cell_at-set_ne r.messages r.write_idx (t % n) (some x) other
                ∙ h.last t y old (omega (arith, more))
            | inr (l, is) ↦
                let here : t % n ≡ r.write_idx = ap (λ (i : ℕ). i % n) l ∙ sym h.at in
                let fits : r.write_idx < length r.messages =
                  omega (arith, h.at, h.room, mod-lt k some_room) in
                ap (cell_at (set r.messages r.write_idx (some x))) here
                ∙ (cell_at-set_self r.messages r.write_idx (some x) fits ∙ ap some is)
          ];
        }

    collect_cells-drop :
        (xs : List J) (messages : List (Option J)) (start base : ℕ)
        → ((i : ℕ) (x : J)
            → get_elem? xs (base + i) ≡ some x
            → cell_at messages ((start + i) % n) ≡ some x)
        → (left i : ℕ) → base + i + left ≡ length xs
        → collect_cells n messages start i left ≡ map some (drop (base + i) xs)
    unfolding collect_cells
    collect_cells-drop xs messages start base cells zero i h =
        rw (drop_end xs (base + i) (omega arith))
    collect_cells-drop xs messages start base cells (suc left) i h =
        let (x, at, step) = drop_step xs (base + i) (omega arith) in
        let next : base + (i + 1) ≡ suc (base + i) = omega arith in
        let rest = collect_cells-drop xs messages start base cells left (i + 1) (omega arith) in
        ap₂ ◌∷◌ (cells i x at) (rest ∙ ap (λ (j : ℕ). map some (drop j xs)) next)
        ∙ sym (ap (map some) step)

    kept_messages-Holds :
        (xs : List J) (r : Ring J)
        → Holds n xs r
        → kept_messages n r ≡ map some (drop (length xs - n) xs)
    unfolding kept_messages
    kept_messages-Holds xs r h = elim (Bool-cases (ltb r.count n)) [
      | inl few ↦
          let base : length xs - n ≡ 0 = ground (arith, few, h.many) in
          let all : 0 + 0 + r.count ≡ length xs = ground (arith, few, h.many) in
          let short : length xs < n = ground (arith, few, h.many) in
          rw (few, base)
            (collect_cells-drop xs r.messages 0 0
              (λ i x e.
                let low : (0 + i) % n ≡ i % n = ap (λ (j : ℕ). j % n) (omega arith) in
                let at : 0 + i ≡ i = omega arith in
                ap (cell_at r.messages) low
                ∙ h.last i x (ap (get_elem? xs) (sym at) ∙ e) (omega arith))
              r.count 0 all)
      | inr full ↦
          let count_is : r.count ≡ n = ground (arith, full, h.many) in
          let enough : n ≤ length xs = ground (arith, full, h.many) in
          let base : length xs - n + 0 ≡ length xs - n = omega arith in
          rw full (
            collect_cells-drop xs r.messages r.write_idx (length xs - n)
              (λ i x e.
                let around = ap (λ (j : ℕ). (j + i) % n) h.at ∙ mod_around n (length xs) i enough in
                ap (cell_at r.messages) around ∙ h.last (length xs - n + i) x e (omega arith))
              r.count 0 (omega (arith, count_is))
            ∙ ap (λ (j : ℕ). map some (drop j xs)) base)
    ]

abbrev pub keep_some : {J : Type 0} → Option J → List J → List J
keep_some none rest = rest
keep_some (some x) rest = x ∷ rest

module _ (api : JsonApi) where
  open api use {Json}

  -- The lines of the file that hold a message, in order.
  abbrev pub messages_in : List Bytes → List Json
  messages_in [] = []
  messages_in (line ∷ lines) = keep_some (parsed_line api line) (messages_in lines)

  Holds-push_lines :
      (n : ℕ)
      → 0 < n
      → n ≤ session_max_msgs
      → (lines : List Bytes) (xs : List Json) (r : Ring Json) → Holds n xs r
      → Holds n (xs ++ messages_in lines) (push_lines api n lines r)
  unfolding push_lines
  Holds-push_lines n some_room in_room [] xs r h =
      subst (λ ys. Holds n ys r) (sym (append-nil xs)) h
  Holds-push_lines n some_room in_room (line ∷ lines) xs r h =
      elim (Option-cases (parsed_line api line)) [
        | inl e ↦ rw e (Holds-push_lines n some_room in_room lines xs r h)
        | inr (obj, e) ↦ rw e (
            subst (λ ys. Holds n ys (push_lines api n lines (push_message n obj r)))
              (append_assoc xs (obj ∷ []) (messages_in lines))
              (Holds-push_lines n some_room in_room lines (xs ++ obj ∷ []) (push_message n obj r)
                (Holds-push n some_room in_room xs obj r h)))
      ]

  -- The ring of `session_get_history_json`, that has at most twenty cells, gives the last messages of
  -- the file in the order of the file, as many as are asked for, or all of them where there are fewer.
  pub kept_messages-last :
      (n : ℕ) (lines : List Bytes)
      → 0 < n
      → n ≤ session_max_msgs
      → kept_messages n (push_lines api n lines no_messages)
        ≡ map some (drop (length (messages_in lines) - n) (messages_in lines))
  kept_messages-last n lines some_room in_room =
      kept_messages-Holds n some_room in_room (messages_in lines)
        (push_lines api n lines no_messages)
        (Holds-push_lines n some_room in_room lines [] no_messages (record {
          room = refl;
          at = sym (mod_small n 0 some_room);
          many = omega arith;
          last = λ t x e. absurd (cc e);
        }))
