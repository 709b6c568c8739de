-- ===== src/Jitter/Playback.antt =====
-- What a pull gives, and how it moves the expected voice ID.
use ts_cli.Prelude.{
  ℕ, true, not, ◌&&◌, Option, none, some, ltb, length, Bool-cases, if-cases, Option-cases, ◌≡◌, inl,
  inr, refl, ap, sym, ◌∙◌, arith,
}
use ts_cli.Prelude.OrderedMap.{find, erase, length-erase}
use ts_cli.Jitter.{
  JitterBuffer, PullResult, wait, frame, packet_loss, end, max_consecutive_losses, next_id, is_id,
  empty, has_future_data, pull_started, pull_expected, pull, has_end, prebuffer_frames,
}
use ts_cli.Jitter.Bounds.{IsValid, erase-IsKeyed, find-IsKeyed, empty-IsValid}

module _ {ℓ} {A : Type ℓ} where
  -- What a pull does to the buffer, by its result.
  abbrev pub Follows : JitterBuffer A → JitterBuffer A → PullResult A → Type ℓ
  Follows b b' wait = (b'.expected_voice_id ≡ b.expected_voice_id) × (b'.pending ≡ b.pending)
  Follows b b' (frame f first) =
      (b.expected_voice_id ≡ some f.voice_id)
      × (find f.voice_id b.pending ≡ some f)
      × (b'.expected_voice_id ≡ some (next_id f.voice_id))
      × (b'.pending ≡ erase f.voice_id b.pending)
  Follows b b' (packet_loss peek) =
      (e : ℕ) × (b.expected_voice_id ≡ some e)
      × (find e b.pending ≡ none)
      × (peek ≡ find (next_id e) b.pending)
      × (b'.expected_voice_id ≡ some (next_id e))
      × (b'.pending ≡ b.pending)
  Follows b b' end = b' ≡ empty

  abbrev pub IsPulled : JitterBuffer A → (JitterBuffer A × PullResult A) → Type ℓ
  IsPulled b (b', r) = IsValid b' × Follows b b' r

  finish-IsPulled : (b : JitterBuffer A) → IsPulled b (empty, end)
  finish-IsPulled b = (empty-IsValid, refl)

  pull_started-IsPulled :
      (expected : ℕ) (b : JitterBuffer A)
      → b.expected_voice_id ≡ some expected
      → IsValid b
      → IsPulled b (pull_started expected b)
  unfolding pull_started
  pull_started-IsPulled expected b here h = elim (Bool-cases (is_id b.end_voice_id expected)) [
    | inl e ↦ rw e (finish-IsPulled b)
    | inr e ↦ rw e (elim (Option-cases (find expected b.pending)) [
      | inr (f, found) ↦ rw found (
        record {
          keyed = erase-IsKeyed expected b.pending h.keyed;
          bounded = omega (arith, h.bounded, length-erase expected b.pending);
          losses = omega arith;
        },
        let key = find-IsKeyed expected b.pending h.keyed found in
            (
              here ∙ ap some (sym key),
              ap (λ k. find k b.pending) key ∙ found,
              ap (λ k. some (next_id k)) (sym key),
              ap (λ k. erase k b.pending) (sym key),
            ),
      )
      | inl absent ↦ rw absent (elim (Bool-cases (has_future_data expected b)) [
        | inl future ↦
            rw future (elim (Bool-cases (ltb b.consecutive_losses max_consecutive_losses)) [
              | inl few ↦ rw few (
                record { keyed = h.keyed; bounded = h.bounded; losses = ground arith },
                (expected, here, absent, refl, refl, refl),
              )
              | inr many ↦ rw many (finish-IsPulled b)
            ])
        | inr idle ↦ rw idle (h, (refl, refl))
      ])
    ])
  ]

  pull_expected-IsPulled :
      (expected : ℕ) (b : JitterBuffer A)
      → b.expected_voice_id ≡ some expected
      → IsValid b
      → IsPulled b (pull_expected expected b)
  unfolding pull_expected
  pull_expected-IsPulled expected b here h =
      if-cases (IsPulled b) b.started (λ e. pull_started-IsPulled expected b here h)
        (λ e.
          if-cases (IsPulled b) (is_id b.end_voice_id expected) (λ over. finish-IsPulled b)
            (λ over.
              if-cases (IsPulled b)
                (ltb (length b.pending) prebuffer_frames && not (has_end b.end_voice_id))
                (λ few. (h, (refl, refl)))
                (λ enough.
                  pull_started-IsPulled expected (record b { started = true }) here
                    (record { keyed = h.keyed; bounded = h.bounded; losses = h.losses }))))

  pull_either :
      (o : Option ℕ) (b : JitterBuffer A)
      → b.expected_voice_id ≡ o
      → IsValid b
      → IsPulled b (elim o [ none ↦ (b, wait) | some expected ↦ pull_expected expected b ])
  pull_either none b here h = (h, (refl, refl))
  pull_either (some expected) b here h = pull_expected-IsPulled expected b here h

  -- A pull from a valid buffer leaves it valid. A frame that it returns is the one that the buffer has for
  -- the expected voice ID, and is taken from it; a loss, which the buffer has no frame for, shows the frame
  -- behind it, if there is one, and leaves the frames as they are; both move the expected ID on by one modulo
  -- 2^16. An end resets the whole buffer, and a wait leaves the expected ID and the frames as they are.
  pub pull-IsPulled : (b : JitterBuffer A) → IsValid b → IsPulled b (pull b)
  unfolding pull
  pull-IsPulled b h = pull_either b.expected_voice_id b refl h
