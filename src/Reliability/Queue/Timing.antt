-- ===== src/Reliability/Queue/Timing.antt =====
-- When commands are sent again, and the deadline that says so.
use ts_cli.Prelude.{
  Option, Option-cases, ℕ, suc, ◌+◌, ◌≤◌, ◌<◌, min, none, some, List, [], ◌∷◌, ok, ltb, leb, length,
  All, if◌then◌else◌, Bool-cases, Result-cases, ◌≡◌, ◌↔◌, inl, inr, refl, ap, sym, ◌∙◌, map, arith,
}
use ts_cli.Binary.{Bytes}
use ts_cli.Reliability.Queue.{
  PendingCommand, Pending, initial_retry_delay, max_retry_delay, command_timeout, collect_due,
  earliest, next_deadline,
}

-- The delays of all entries lie between the initial and the maximal one.
abbrev pub HasDelays : Pending → Type 0
HasDelays = All λ e. (initial_retry_delay ≤ e.1.retry_delay) × (e.1.retry_delay ≤ max_retry_delay)

abbrev deadline_of : PendingCommand → ℕ
deadline_of p = min p.next_retry (p.first_sent + command_timeout)

-- No entry is due at `now`.
abbrev NoneDue : ℕ → Pending → Type 0
NoneDue now = All λ e. now < deadline_of e.1

collect_due_none : (now : ℕ) (m : Pending) → NoneDue now m → collect_due now m ≡ (m, ok [])
unfolding collect_due
collect_due_none now [] n = refl
collect_due_none now ((k, p) ∷ m) (a, n) = ground (arith, collect_due_none now m n)

collect_due_quiet : (now : ℕ) (m : Pending) → (collect_due now m).1 ≡ ok [] → NoneDue now m
unfolding collect_due
collect_due_quiet now [] e = tt
collect_due_quiet now ((k, p) ∷ m) e = (ground arith, collect_due_quiet now m (ground arith))

-- What a retry must not change of a command
abbrev pub kept : ℕ × PendingCommand → ℕ × ℕ × ℕ × Bytes × ℕ
kept (k, p) = (k, p.packet_id, p.generation_id, p.packet, p.first_sent)

-- The packets that are due, of the commands whose time for it has come.
abbrev pub due_packets : ℕ → Pending → List Bytes
due_packets now [] = []
due_packets now ((k, p) ∷ m) =
    if ltb now p.next_retry then due_packets now m else p.packet ∷ due_packets now m

collect_due-kept :
    (now : ℕ) (m : Pending) {packets : List Bytes}
    → (collect_due now m).1 ≡ ok packets
    → (map kept (collect_due now m).0 ≡ map kept m) × (packets ≡ due_packets now m)
unfolding collect_due
collect_due-kept now [] e = (refl, cc)
collect_due-kept now ((k, p) ∷ m) {packets} e =
    elim (Bool-cases (leb (p.first_sent + command_timeout) now)) [
      | inl late ↦ absurd (ground (arith, e))
      | inr early ↦ elim (Bool-cases (ltb now p.next_retry)) [
        | inl waiting ↦
            let e' : (collect_due now m).1 ≡ ok packets = rw (early, waiting) at e in
            let (same, due) = collect_due-kept now m e' in
            rw (early, waiting) (ap (λ xs. kept (k, p) ∷ xs) same, due)
        | inr time ↦ elim (Result-cases (collect_due now m).1) [
          | inr (x, f) ↦ absurd (ground (arith, e, f))
          | inl (ps, f) ↦
              let (same, due) = collect_due-kept now m f in
              let e' : ok (p.packet ∷ ps) ≡ ok packets = rw (early, time, f) at e in
              let it : p.packet ∷ ps ≡ packets = cc in
              rw (early, time)
                (ap (λ xs. kept (k, p) ∷ xs) same, sym it ∙ ap (λ xs. p.packet ∷ xs) due)
        ]
      ]
    ]

collect_due-NoneDue :
    (now : ℕ) (m : Pending) {packets : List Bytes}
    → HasDelays m
    → (collect_due now m).1 ≡ ok packets
    → NoneDue now (collect_due now m).0
      × HasDelays (collect_due now m).0
      × (length (collect_due now m).0 ≡ length m)
unfolding collect_due
collect_due-NoneDue now [] d e = ground arith
collect_due-NoneDue now ((k, p) ∷ m) {packets} (h, d) e =
    elim (Bool-cases (leb (p.first_sent + command_timeout) now)) [
      | inl late ↦ absurd (ground (arith, e))
      | inr early ↦ elim (Result-cases (collect_due now m).1) [
        | inr (x, f) ↦ absurd (ground (arith, e, f))
        | inl (ps, f) ↦
            let (n, d', l) = collect_due-NoneDue now m d f in
            elim (Bool-cases (ltb now p.next_retry)) [
              | inl waiting ↦ rw (early, waiting) ((ground arith, n), (h, d'), ap suc l)
              | inr due ↦ rw (early, due) ((ground arith, n), (omega arith, d'), ap suc l)
            ]
      ]
    ]

-- The earliest deadline of all lies ahead exactly when nothing is due.
earliest-NoneDue :
    (now : ℕ) (m : Pending) (d : ℕ)
    → (e : ℕ) × (earliest m (some d) ≡ some e) × ((now < e) ↔ ((now < d) × NoneDue now m))
unfolding earliest
earliest-NoneDue now [] d = (d, refl, (λ h. (h, tt), λ h. h.0))
earliest-NoneDue now ((k, p) ∷ m) d =
    let x = deadline_of p in
    let (e, q, (there, back)) = earliest-NoneDue now m (if ltb x d then x else d) in
    (
      e,
      q,
      (
        λ h. (ground (arith, (there h).0), (ground (arith, (there h).0), (there h).1)),
        λ h. back (ground arith, h.1.1),
      ),
    )

deadline_branches :
    (now : ℕ) (m : Pending)
    → ((next_deadline m ≡ none) → m ≡ [])
      × ((d : ℕ) → next_deadline m ≡ some d → (now < d) ↔ (collect_due now m ≡ (m, ok [])))
unfolding next_deadline earliest
deadline_branches now [] = (λ e. refl, λ d e. cc)
deadline_branches now ((k, p) ∷ m) =
    let (e, q, (there, back)) = earliest-NoneDue now m (deadline_of p) in
    (
      λ h. cc,
      λ d h. (
        λ early. collect_due_none now ((k, p) ∷ m) (there (ground (arith, q))),
        λ quiet.
            let none_due = collect_due_quiet now ((k, p) ∷ m) (ap (λ r. r.1) quiet) in
            ground (arith, q, back (none_due.0, none_due.1)),
      ),
    )

-- What a deadline says at a time: none, that the queue is empty, and some, that it lies ahead exactly
-- when `CollectDue` changes nothing and returns no packet.
abbrev pub IsDeadline : ℕ → Pending → Option ℕ → Type 0
IsDeadline now m none = m ≡ []
IsDeadline now m (some d) = (now < d) ↔ (collect_due now m ≡ (m, ok []))

-- `NextDeadline` says when there is work: without a deadline the queue is empty, and before the deadline,
-- and only then, `CollectDue` changes nothing and returns no packet.
pub next_deadline_exact : (now : ℕ) (m : Pending) → IsDeadline now m (next_deadline m)
next_deadline_exact now m =
    let (without, within) = deadline_branches now m in
    elim (Option-cases (next_deadline m)) [
      | inl e ↦ rw e (without e)
      | inr (d, e) ↦ rw e (within d e)
    ]

-- If `CollectDue` throws nothing: it returns the packets of the commands whose retry has come, in their
-- order, and every command is kept, with its key, IDs, packet and time of sending; a second call at the same
-- time returns nothing and changes nothing; and delays from the initial to the maximal one stay so.
pub collect_due_twice :
    (now : ℕ) (m : Pending) (packets : List Bytes)
    → HasDelays m
    → (collect_due now m).1 ≡ ok packets
    → (packets ≡ due_packets now m)
      × (map kept (collect_due now m).0 ≡ map kept m)
      × (collect_due now (collect_due now m).0 ≡ ((collect_due now m).0, ok []))
      × HasDelays (collect_due now m).0
collect_due_twice now m packets d e =
    let (n, d', l) = collect_due-NoneDue now m d e in
    let (same, due) = collect_due-kept now m e in
    (due, same, collect_due_none now (collect_due now m).0 n, d')
