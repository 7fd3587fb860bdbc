-- ===== src/Leaf/Hostphy/Cpu/Processes.antt =====
-- count_process of sflow/sflow_protocol_leaf_hostphy.c, and the processes that it counts.
use sflow.Common.{
  ℕ, suc, ◌+◌, ◌-◌, ◌*◌, ◌%◌, ◌^◌, ◌<◌, ◌≤◌, ◌≡◌, refl, ap, ◌∙◌, Bool, true, false, ◌&&◌, ◌||◌,
  List, [], ◌∷◌, length, Option, none, some, leb, ◌==◌, if◌then◌else◌, Bool-cases, Option-cases,
  inl, inr, arith, ◌⊎◌,
}
use sflow.Common.Int.{ℤ, pos, negsuc}
use sflow.Leaf.System.{Process}

-- atoi and atol, of a text that begins with digits
abbrev pub leading_from : ℕ → List ℕ → ℕ
leading_from n [] = n
leading_from n (c ∷ s) = elim (leb 48 c && leb c 57) [
  | true ↦ leading_from (n * 10 + (c - 48)) s
  | false ↦ n
]

unfoldable pub leading_number : List ℕ → ℕ
leading_number s = leading_from 0 s

-- pidstr[0] == '.', which is 46
abbrev pub is_hidden : List ℕ → Bool
is_hidden [] = false
is_hidden (c ∷ s) = c == 46

-- "." and "..", and sched, pageout and fsflush
unfoldable pub is_skipped : Process → Bool
is_skipped p =
    let pid = leading_number p.name in is_hidden p.name || (pid == 0 || pid == 2 || pid == 3)

-- 'R' and 'O'
abbrev pub is_active : ℕ → Bool
is_active state = state == 82 || state == 79

-- What the loop does with an entry: nothing, the end, or to count it
pub data Fate : Type 0 where
  skipped gone : Fate
  counted : ℕ → Fate

fate_of : Option ℕ → Fate
fate_of none = gone
fate_of (some state) = counted state

unfoldable pub fate : Process → Fate
unfolding fate_of
fate p = if is_skipped p then skipped else fate_of p.psinfo

-- The loop: the entries left, *total and *running. It ends with 1 at an entry whose file cannot
-- be opened or read.
unfoldable pub count_loop : List Process → ℕ → ℕ → ℤ × ℕ × ℕ
count_loop [] total running = (pos 0, total, running)
count_loop (p ∷ ps) total running = elim (fate p) [
  | skipped ↦ count_loop ps total running
  | gone ↦ (pos 1, total, running)
  | counted state ↦
      count_loop ps ((total + 1) % 2 ^ 32)
        (if is_active state then (running + 1) % 2 ^ 32 else running)
]

-- The result, and *total and *running, the latter cleared by the caller
unfoldable pub count_process : Option (List Process) → ℤ × ℕ × ℕ
count_process none = (negsuc 0, 0, 0)
count_process (some ps) = count_loop ps 0 0

-- What is counted, without the tests of the loop: entries that begin with '.' and those of the
-- processes 0, 2 and 3 do not count.
abbrev begins_with_dot : List ℕ → Bool
begins_with_dot [] = false
begins_with_dot (c ∷ s) = if c == 46 then true else false

unfoldable pub ignored : Process → Bool
ignored p =
    if begins_with_dot p.name
    then true
    else if leading_number p.name == 0
    then true
    else if leading_number p.name == 2
    then true
    else if leading_number p.name == 3
    then true
    else false

-- The states of the processes before the first one that cannot be read
unfoldable pub states : List Process → List ℕ
states [] = []
states (p ∷ ps) = elim (ignored p) [
  | true ↦ states ps
  | false ↦ elim p.psinfo [ none ↦ [] | some state ↦ state ∷ states ps ]
]

-- 1 where there is one that cannot be read
unfoldable pub some_gone : List Process → ℕ
some_gone [] = 0
some_gone (p ∷ ps) = elim (ignored p) [
  | true ↦ some_gone ps
  | false ↦ elim p.psinfo [ none ↦ 1 | some state ↦ some_gone ps ]
]

-- How many of the states are 'R', which is 82, or 'O', which is 79
unfoldable pub runs : ℕ → ℕ
runs state = if state == 82 then 1 else if state == 79 then 1 else 0

abbrev pub active : List ℕ → ℕ
active [] = 0
active (state ∷ rest) = runs state + active rest

is_skipped-ignored : (p : Process) → is_skipped p ≡ ignored p
unfolding is_skipped ignored
is_skipped-ignored p = elim (List-cases p.name) [
  | inl e ↦ rw e (by_pid (leading_number []))
  | inr (c, s, e) ↦ elim (Bool-cases (c == 46)) [
    | inl t ↦ rw (e, t) refl
    | inr t ↦ rw (e, t) (by_pid (leading_number (c ∷ s)))
  ]
]
  where
    List-cases : (s : List ℕ) → (s ≡ []) ⊎ ((c : ℕ) × (s' : List ℕ) × (s ≡ c ∷ s'))
    List-cases [] = inl refl
    List-cases (c ∷ s) = inr (c, s, refl)

    by_pid :
        (pid : ℕ)
        → (pid == 0 || pid == 2 || pid == 3)
          ≡ (if pid == 0 then true else if pid == 2 then true else if pid == 3 then true else false)
    by_pid pid = ground arith

is_active-runs : (state : ℕ) → runs state ≡ (if is_active state then 1 else 0)
unfolding runs
is_active-runs state = ground arith

abbrev pub LoopIs : List Process → ℕ → ℕ → Type 0
LoopIs ps t r =
    count_loop ps t r ≡ (pos (some_gone ps), t + length (states ps), r + active (states ps))

module _ (p : Process) (ps : List Process) (t r : ℕ) where
  skipped_round : ignored p ≡ true → LoopIs ps t r → LoopIs (p ∷ ps) t r
  unfolding count_loop some_gone states fate
  skipped_round ig h =
      let e : fate p ≡ skipped = rw (is_skipped-ignored p, ig) refl in
      rw (e, ig, count_loop, some_gone, states) h

  gone_round : ignored p ≡ false → p.psinfo ≡ none → LoopIs (p ∷ ps) t r
  unfolding count_loop some_gone states fate fate_of
  gone_round ig info =
      let e : fate p ≡ gone = rw (is_skipped-ignored p, ig, info) refl in
      let zt : t + 0 ≡ t = omega arith in
      let zr : r + 0 ≡ r = omega arith in
      rw (e, ig, info, count_loop, some_gone, states, zt, zr) refl

  counted_round :
      (state : ℕ)
      → ignored p ≡ false
      → p.psinfo ≡ some state
      → t + 1 < 2 ^ 32
      → r ≤ t
      → ((r' : ℕ) → r' ≤ t + 1 → LoopIs ps (t + 1) r')
      → LoopIs (p ∷ ps) t r
  unfolding count_loop some_gone states fate fate_of
  counted_round state ig info small le h =
      let e : fate p ≡ counted state = rw (is_skipped-ignored p, ig, info) refl in
      let t' : (t + 1) % 2 ^ 32 ≡ t + 1 = omega arith in
      let r' : (r + 1) % 2 ^ 32 ≡ r + 1 = omega arith in
      let lt : t + suc (length (states ps)) ≡ t + 1 + length (states ps) = omega arith in
      elim (Bool-cases (is_active state)) [
        | inl a ↦
            let one : runs state ≡ 1 = is_active-runs state ∙ rw a refl in
            let lr : r + (1 + active (states ps)) ≡ r + 1 + active (states ps) = omega arith in
            rw (e, ig, info, count_loop, some_gone, states, a, one, t', r', lt, lr)
              (h (r + 1) (omega arith))
        | inr a ↦
            let zero_here : runs state ≡ 0 = is_active-runs state ∙ rw a refl in
            let lr : r + (0 + active (states ps)) ≡ r + active (states ps) = omega arith in
            rw (e, ig, info, count_loop, some_gone, states, a, zero_here, t', lt, lr)
              (h r (omega arith))
      ]

count_loop_lem : (ps : List Process) (t r : ℕ) → t + length ps < 2 ^ 32 → r ≤ t → LoopIs ps t r
unfolding count_loop states some_gone
count_loop_lem [] t r small le =
    let zt : t + 0 ≡ t = omega arith in let zr : r + 0 ≡ r = omega arith in rw (zt, zr) refl
count_loop_lem (p ∷ ps) t r small le = elim (Bool-cases (ignored p)) [
  | inl ig ↦ skipped_round p ps t r ig (count_loop_lem ps t r (omega arith) le)
  | inr ig ↦ elim (Option-cases p.psinfo) [
    | inl info ↦ gone_round p ps t r ig info
    | inr (state, info) ↦
        counted_round p ps t r state ig info (omega arith) le
          λ r' le'. count_loop_lem ps (t + 1) r' (omega arith) le'
  ]
]

runs-le : (state : ℕ) → runs state ≤ 1
unfolding runs
runs-le state = ground arith

active-le : (states : List ℕ) → active states ≤ length states
active-le [] = omega arith
active-le (state ∷ rest) = omega (arith, active-le rest, runs-le state)

-- For a directory of fewer than 2 ^ 32 entries count_process counts the processes before the first
-- one that cannot be opened or read, and those of them in state R or O, which are no more; entries
-- that begin with a dot and those of the processes 0, 2 and 3 are left out; its result is 1 if
-- there is such an entry and else 0.
pub count_process_lem :
    (ps : List Process)
    → length ps < 2 ^ 32
    → (count_process (some ps) ≡ (pos (some_gone ps), length (states ps), active (states ps)))
      × (active (states ps) ≤ length (states ps))
unfolding count_process
count_process_lem ps small =
    let zt : 0 + length (states ps) ≡ length (states ps) = omega arith in
    let zr : 0 + active (states ps) ≡ active (states ps) = omega arith in
    (
      count_loop_lem ps 0 0 (omega arith) (omega arith)
          ∙ ap (λ (n : ℕ). (pos (some_gone ps), n, 0 + active (states ps))) zt
          ∙ ap (λ (n : ℕ). (pos (some_gone ps), length (states ps), n)) zr,
      active-le (states ps),
    )
