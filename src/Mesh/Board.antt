-- ===== src/Mesh/Board.antt =====
-- main/sensors/sensor_mqtt.c: the board shows the last events, oldest first.
use esp32_agent_mesh.Prelude.{
  ltb, if◌then◌else◌, length, drop, All, length-append, length-set, All-get_elem?, length-map, ℕ,
  zero, suc, ◌+◌, ◌-◌, ◌%◌, ◌^◌, ◌≤◌, ◌<◌, ◌≡◌, refl, sym, ap, subst, ◌∙◌, true, List, [], ◌∷◌,
  ◌++◌, map, append_assoc, append-nil, arith,
}
use esp32_agent_mesh.Prelude.Ring.{drop_end, drop_step, HoldsLast, HoldsLast-set}
use esp32_agent_mesh.Mesh.Stateboard.{
  StateboardItem, Stateboard, stateboard_depth, no_events, NotedEvent, item_of, write_event,
  used_slots, shown_items,
}

abbrev pub note_events : List NotedEvent → Stateboard → Stateboard
note_events [] b = b
note_events (e ∷ es) b = note_events es (write_event (item_of e) b)

-- The board after the items of a list.
record Shows (xs : List StateboardItem) (b : Stateboard) : Type 0 where
  room : length b.cells ≡ stateboard_depth
  at : b.next ≡ length xs
  last : HoldsLast stateboard_depth xs b.cells
  all_used : All (λ x. x.used ≡ true) xs

All-snoc :
    {A : Type 0} (P : A → Type 0) (xs : List A) (x : A) → All P xs → P x → All P (xs ++ x ∷ [])
All-snoc P [] x a p = (p, tt)
All-snoc P (y ∷ xs) x (q, a) p = (q, All-snoc P xs x a p)

Shows-write :
    (xs : List StateboardItem) (e : NotedEvent) (b : Stateboard)
    → length xs + 1 < 2 ^ 32
    → Shows xs b
    → Shows (xs ++ item_of e ∷ []) (write_event (item_of e) b)
unfolding write_event
Shows-write xs e b few s =
    let more = length-append xs (item_of e ∷ []) in
    record {
      room = length-set b.cells (b.next % stateboard_depth) (item_of e) ∙ s.room;
      at = omega (arith, few, s.at, more);
      last =
          rw s.at
            (HoldsLast-set stateboard_depth xs b.cells (item_of e) (omega arith) s.room s.last);
      all_used = All-snoc (λ x. x.used ≡ true) xs (item_of e) s.all_used refl;
    }

Shows-note_events :
    (es : List NotedEvent) (xs : List StateboardItem) (b : Stateboard)
    → length xs + length es < 2 ^ 32
    → Shows xs b
    → Shows (xs ++ map item_of es) (note_events es b)
Shows-note_events [] xs b few s = subst (λ ys. Shows ys b) (sym (append-nil xs)) s
Shows-note_events (e ∷ es) xs b few s =
    let more = length-append xs (item_of e ∷ []) in
    let b' = write_event (item_of e) b in
    let s' = Shows-write xs e b (omega (arith, few)) s in
    subst (λ ys. Shows ys (note_events es b')) (append_assoc xs (item_of e ∷ []) (map item_of es))
      (Shows-note_events es (xs ++ item_of e ∷ []) b' (omega (arith, few, more)) s')

used_slots-drop :
    (xs : List StateboardItem) (b : Stateboard)
    → Shows xs b
    → (base left i : ℕ) → length xs ≤ base + stateboard_depth
    → base + i + left ≡ length xs
    → used_slots b.cells base i left ≡ drop (base + i) xs
unfolding used_slots
used_slots-drop xs b s base zero i near h = sym (drop_end xs (base + i) (omega arith))
used_slots-drop xs b s base (suc left) i near h =
    let (x, at, step) = drop_step xs (base + i) (omega arith) in
    let cell = s.last (base + i) x at (omega (arith, near)) in
    let used = All-get_elem? (λ x. x.used ≡ true) xs (base + i) x s.all_used at in
    let next : base + (i + 1) ≡ suc (base + i) = omega arith in
    let rest = used_slots-drop xs b s base left (i + 1) near (omega arith) in
    rw (cell, used) (ap (◌∷◌ x) (rest ∙ ap (λ (j : ℕ). drop j xs) next) ∙ sym step)

shown_items-Shows :
    (xs : List StateboardItem) (b : Stateboard)
    → Shows xs b
    → shown_items b ≡ drop (length xs - stateboard_depth) xs
unfolding shown_items
shown_items-Shows xs b s =
    let base = length xs - stateboard_depth in
    let n = b.next in
    let count = if ltb n stateboard_depth then n else stateboard_depth in
    let start : (if ltb count n then n - count else 0) ≡ base = ground (arith, s.at) in
    let all : base + 0 + count ≡ length xs = ground (arith, s.at) in
    let here : base + 0 ≡ base = omega arith in
    ap (λ (i : ℕ). used_slots b.cells i 0 count) start
    ∙ used_slots-drop xs b s base count 0 (omega arith) all
    ∙ ap (λ (j : ℕ). drop j xs) here

-- The board shows the last twelve of the events that were noted since the start, or all of them where
-- there were fewer, in their order, as long as they were fewer than 2 ^ 32.
pub shown_items-last :
    (es : List NotedEvent)
    → length es < 2 ^ 32
    → shown_items (note_events es no_events) ≡ drop (length es - stateboard_depth) (map item_of es)
shown_items-last es few =
    let s =
      Shows-note_events es [] no_events (omega (arith, few))
        (record { room = refl; at = refl; last = λ t x e. absurd (cc e); all_used = tt }) in
    shown_items-Shows (map item_of es) (note_events es no_events) s
    ∙ ap (λ (k : ℕ). drop (k - stateboard_depth) (map item_of es)) (length-map es item_of)
