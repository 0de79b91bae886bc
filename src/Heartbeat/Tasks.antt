-- ===== src/Heartbeat/Tasks.antt =====
-- main/heartbeat/heartbeat.c: what a file without a task looks like.
-- The file as lines, each ended by a new line.
use esp32_agent_mesh.Prelude.{
  ◌==◌, Bool-cases, length, All, length-append, Bytes, is_space, skip_spaces, ℕ, zero, suc, ◌<◌,
  ◌≡◌, refl, sym, ap, ◌∙◌, ◌≢◌, ◌↔◌, ◌⊎◌, inl, inr, Bool, true, false, ◌||◌, some, List, [], ◌∷◌,
  ◌++◌, append_assoc, append-nil, arith,
}
use esp32_agent_mesh.Heartbeat.Content.{
  line_room, fgets, is_completed, is_actionable_at, is_actionable, has_tasks_from,
  heartbeat_has_tasks,
}

abbrev pub unlines : List Bytes → Bytes
unlines [] = []
unlines (l ∷ ls) = l ++ (b'\n' ∷ unlines ls)

-- A line that `fgets` takes at once.
abbrev pub IsLine : Bytes → Type 0
IsLine l = (length l < line_room) × All (λ c. c ≢ b'\n') l

fgets-line :
    (room : ℕ) (l rest : Bytes)
    → length l < room
    → All (λ c. c ≢ b'\n') l
    → fgets room (l ++ (b'\n' ∷ rest)) ≡ (l ++ (b'\n' ∷ []), rest)
unfolding fgets
fgets-line zero l rest h a = absurd (omega arith)
fgets-line (suc room) [] rest h a = refl
fgets-line (suc room) (c ∷ cs) rest h a =
    let other : (c == b'\n') ≡ false = ground (arith, a.0) in
    rw (other, fgets-line room cs rest (omega (arith, h)) a.1)

round :
    (fuel c : ℕ) (cs line rest : Bytes)
    → fgets line_room (c ∷ cs) ≡ (line, rest)
    → has_tasks_from (suc fuel) (c ∷ cs) ≡ is_actionable line || has_tasks_from fuel rest
unfolding has_tasks_from
round fuel c cs line rest h = rw h (ground arith)

line_step :
    (fuel : ℕ) (l rest : Bytes)
    → IsLine l
    → has_tasks_from (suc fuel) (l ++ (b'\n' ∷ rest))
      ≡ is_actionable (l ++ (b'\n' ∷ [])) || has_tasks_from fuel rest
line_step fuel [] rest (short, plain) =
    round fuel b'\n' rest (b'\n' ∷ []) rest (fgets-line line_room [] rest short plain)
line_step fuel (c ∷ cs) rest (short, plain) =
    round fuel c (cs ++ (b'\n' ∷ rest)) (c ∷ (cs ++ (b'\n' ∷ []))) rest
      (fgets-line line_room (c ∷ cs) rest short plain)

fgets-last :
    (room : ℕ) (l : Bytes) → length l < room → All (λ c. c ≢ b'\n') l → fgets room l ≡ (l, [])
unfolding fgets
fgets-last zero l h a = absurd (omega arith)
fgets-last (suc room) [] h a = refl
fgets-last (suc room) (c ∷ cs) h a =
    let other : (c == b'\n') ≡ false = ground (arith, a.0) in
    rw (other, fgets-last room cs (omega (arith, h)) a.1)

abbrev AllSpace : Bytes → Type 0
AllSpace = All (λ c. is_space c ≡ true)

-- A line that asks for nothing: white space, a header, or a box that is ticked.
pub data IsIdle : Bytes → Type 0 where
  blank : (l : Bytes) → AllSpace l → IsIdle l
  header : (before rest : Bytes) → AllSpace before → IsIdle (before ++ (b'#' ∷ rest))
  ticked :
      (before rest : Bytes) (bullet mark : ℕ)
      → AllSpace before
      → (bullet ≡ b'-') ⊎ (bullet ≡ b'*')
      → (mark ≡ b'x') ⊎ (mark ≡ b'X')
      → IsIdle (before ++ (bullet ∷ b' ' ∷ b'[' ∷ mark ∷ b']' ∷ rest))

-- What ends a line: the last one of a file may have nothing there.
abbrev end_of : Bool → Bytes
end_of true = b'\n' ∷ []
end_of false = []

skip_spaces-append :
    (before rest : Bytes) → AllSpace before → skip_spaces (before ++ rest) ≡ skip_spaces rest
unfolding skip_spaces
skip_spaces-append [] rest a = refl
skip_spaces-append (c ∷ cs) rest (s, a) = rw s (skip_spaces-append cs rest a)

IsIdle-not_actionable : (l : Bytes) (e : Bool) → IsIdle l → is_actionable (l ++ end_of e) ≡ false
unfolding is_actionable is_actionable_at is_completed skip_spaces
IsIdle-not_actionable l true (blank _ a) = rw (skip_spaces-append l (end_of true) a) refl
IsIdle-not_actionable l false (blank _ a) = rw (skip_spaces-append l (end_of false) a) refl
IsIdle-not_actionable _ e (header before rest a) =
    rw (append_assoc before (b'#' ∷ rest) (end_of e), skip_spaces-append before _ a) refl
IsIdle-not_actionable _ e (ticked before rest bullet mark a (inl b) (inl m)) =
    rw (append_assoc before _ (end_of e), skip_spaces-append before _ a, b, m) refl
IsIdle-not_actionable _ e (ticked before rest bullet mark a (inl b) (inr m)) =
    rw (append_assoc before _ (end_of e), skip_spaces-append before _ a, b, m) refl
IsIdle-not_actionable _ e (ticked before rest bullet mark a (inr b) (inl m)) =
    rw (append_assoc before _ (end_of e), skip_spaces-append before _ a, b, m) refl
IsIdle-not_actionable _ e (ticked before rest bullet mark a (inr b) (inr m)) =
    rw (append_assoc before _ (end_of e), skip_spaces-append before _ a, b, m) refl

either : (a b : ℕ) (x : ℕ) → (x == a || x == b) ≡ true → (x ≡ a) ⊎ (x ≡ b)
either a b x h = elim (Bool-cases (x == a)) [
  | inl e ↦ inl (ground (arith, e))
  | inr n ↦ inr (ground (arith, h, n))
]

-- Behind the white space.
is_completed-ticked : (l : Bytes) (e : Bool) → is_completed (l ++ end_of e) ≡ true → IsIdle l
unfolding is_completed
is_completed-ticked [] true h = absurd (cc h)
is_completed-ticked [] false h = absurd (cc h)
is_completed-ticked (a ∷ []) true h = absurd (cc h)
is_completed-ticked (a ∷ []) false h = absurd (cc h)
is_completed-ticked (a ∷ b ∷ []) true h = absurd (cc h)
is_completed-ticked (a ∷ b ∷ []) false h = absurd (cc h)
is_completed-ticked (a ∷ b ∷ c ∷ []) true h = absurd (cc h)
is_completed-ticked (a ∷ b ∷ c ∷ []) false h = absurd (cc h)
is_completed-ticked (a ∷ b ∷ c ∷ m ∷ []) true h = absurd (ground (arith, h))
is_completed-ticked (a ∷ b ∷ c ∷ m ∷ []) false h = absurd (cc h)
is_completed-ticked (a ∷ b ∷ c ∷ m ∷ d ∷ rest) e h =
    let bullet : (a == b'-' || a == b'*') ≡ true = ground (arith, h) in
    let mark : (m == b'x' || m == b'X') ≡ true = ground (arith, h) in
    let space : b ≡ b' ' = ground (arith, h) in
    let opens : c ≡ b'[' = ground (arith, h) in
    let closes : d ≡ b']' = ground (arith, h) in
    rw (space, opens, closes)
      (ticked [] rest a m tt (either b'-' b'*' a bullet) (either b'x' b'X' m mark))

space_before : (c : ℕ) (l : Bytes) → is_space c ≡ true → IsIdle l → IsIdle (c ∷ l)
space_before c _ s (blank l a) = blank (c ∷ l) (s, a)
space_before c _ s (header before rest a) = header (c ∷ before) rest (s, a)
space_before c _ s (ticked before rest bullet mark a b m) =
    ticked (c ∷ before) rest bullet mark (s, a) b m

not_actionable-IsIdle : (l : Bytes) (e : Bool) → is_actionable (l ++ end_of e) ≡ false → IsIdle l
unfolding is_actionable is_actionable_at skip_spaces
not_actionable-IsIdle [] e h = blank [] tt
not_actionable-IsIdle (c ∷ cs) e h = elim (Bool-cases (is_space c)) [
  | inl s ↦ space_before c cs s (not_actionable-IsIdle cs e (rw s at h))
  | inr s ↦ elim (Bool-cases (c == b'#')) [
    | inl hash ↦ let is : c ≡ b'#' = ground (arith, hash) in rw is (header [] cs tt)
    | inr other ↦ is_completed-ticked (c ∷ cs) e (ground (arith, rw (s, other) at h))
  ]
]

-- The bytes behind the last new line, if there are any, are a line too.
abbrev pub file_of : List Bytes → Bytes → Bytes
file_of ls last = unlines ls ++ last

nothing : (fuel : ℕ) → has_tasks_from fuel [] ≡ false
unfolding has_tasks_from
nothing zero = refl
nothing (suc fuel) = refl

last_step :
    (fuel : ℕ) (last : Bytes)
    → IsLine last
    → length last < fuel
    → (has_tasks_from fuel last ≡ false) ↔ IsIdle last
unfolding has_tasks_from
last_step zero last f h = absurd (omega arith)
last_step (suc fuel) [] f h = ((λ e. blank [] tt), λ i. refl)
last_step (suc fuel) (c ∷ cs) (short, plain) h =
    let taken = round fuel c cs (c ∷ cs) [] (fgets-last line_room (c ∷ cs) short plain) in
    let none_left : has_tasks_from fuel [] ≡ false = nothing fuel in
    let same : (c ∷ cs) ++ [] ≡ c ∷ cs = append-nil (c ∷ cs) in
    (
      λ e.
          not_actionable-IsIdle (c ∷ cs) false
            (ap is_actionable same ∙ ground (arith, sym taken ∙ e)),
      λ i.
          let idle = ap is_actionable (sym same) ∙ IsIdle-not_actionable (c ∷ cs) false i in
          taken ∙ ground (arith, idle, none_left),
    )

has_tasks_from-lines :
    (fuel : ℕ) (ls : List Bytes) (last : Bytes)
    → All IsLine ls
    → IsLine last
    → length (file_of ls last) < fuel
    → (has_tasks_from fuel (file_of ls last) ≡ false) ↔ (All IsIdle ls × IsIdle last)
has_tasks_from-lines fuel [] last a f h =
    let (to, from) = last_step fuel last f h in ((λ e. (tt, to e)), λ i. from i.1)
has_tasks_from-lines zero (l ∷ ls) last a f h = absurd (omega arith)
has_tasks_from-lines (suc fuel) (l ∷ ls) last (l_fits, a) f h =
    let split : file_of (l ∷ ls) last ≡ l ++ (b'\n' ∷ file_of ls last) =
      append_assoc l (b'\n' ∷ unlines ls) last in
    let left : length (file_of ls last) < fuel =
      omega (arith, h, ap length split, length-append l (b'\n' ∷ file_of ls last)) in
    let (to, from) = has_tasks_from-lines fuel ls last a f left in
    let step = ap (has_tasks_from (suc fuel)) split ∙ line_step fuel l (file_of ls last) l_fits in
    (
      λ e.
          let both = sym step ∙ e in
          let (idle, ends) = to (ground (arith, both)) in
          ((not_actionable-IsIdle l true (ground (arith, both)), idle), ends),
      λ ((i, idle), ends).
          let none_here = IsIdle-not_actionable l true i in
          step ∙ ground (arith, none_here, from (idle, ends)),
    )

-- A file whose lines each fit the buffer, the last one with or without its new line, has no task
-- exactly if each of its lines is blank, a header, or a box that is ticked; the loop's fuel suffices.
pub heartbeat_has_tasks-IsIdle :
    (ls : List Bytes) (last : Bytes)
    → All IsLine ls
    → IsLine last
    → (heartbeat_has_tasks (some (file_of ls last)) ≡ false) ↔ (All IsIdle ls × IsIdle last)
unfolding heartbeat_has_tasks
heartbeat_has_tasks-IsIdle ls last a f =
    has_tasks_from-lines (suc (length (file_of ls last))) ls last a f (omega arith)
