-- ===== src/Jitter/Bounds.antt =====
-- What the buffer keeps: few frames, each under its own voice ID.
use ts_cli.Prelude.{
  ℕ, zero, suc, ◌+◌, ◌≤◌, ◌<◌, Bool, true, not, ◌&&◌, Option, none, some, [], ◌∷◌, ltb, leb, length,
  Bool-cases, Option-cases, ltb→lt, ◌≡◌, inl, inr, refl, arith,
}
use ts_cli.Prelude.OrderedMap.{
  OrderedMap, find, insert, erase, contains, is_some, length-erase_found, length-insert_new,
}
use ts_cli.Jitter.{
  EncodedFrame, JitterBuffer, max_pending_frames, max_consecutive_losses, distance, empty, furthest,
  first_key, shrink, try_emplace, keep, begin_at, push_end, push_frame, push, max_reorder_distance,
}

module _ {ℓ} {A : Type ℓ} where
  -- A frame stands under its own voice ID.
  abbrev pub IsKeyed : OrderedMap (EncodedFrame A) → Type ℓ
  IsKeyed [] = Unit
  IsKeyed ((k, f) ∷ m) = (k ≡ f.voice_id) × IsKeyed m

  pub record IsValid (b : JitterBuffer A) : Type ℓ where
    pub keyed : IsKeyed b.pending
    pub bounded : length b.pending ≤ max_pending_frames
    pub losses : b.consecutive_losses ≤ max_consecutive_losses

  insert-IsKeyed :
      (f : EncodedFrame A) (m : OrderedMap (EncodedFrame A))
      → IsKeyed m
      → IsKeyed (insert f.voice_id f m)
  unfolding insert
  insert-IsKeyed f [] h = (refl, tt)
  insert-IsKeyed f ((k, g) ∷ m) h = ground (arith, insert-IsKeyed f m h.1)

  pub erase-IsKeyed : (k : ℕ) (m : OrderedMap (EncodedFrame A)) → IsKeyed m → IsKeyed (erase k m)
  unfolding erase
  erase-IsKeyed k [] h = tt
  erase-IsKeyed k ((j, g) ∷ m) h = ground (arith, erase-IsKeyed k m h.1)

  pub find-IsKeyed :
      (k : ℕ) (m : OrderedMap (EncodedFrame A)) {f : EncodedFrame A}
      → IsKeyed m
      → find k m ≡ some f
      → f.voice_id ≡ k
  unfolding find
  find-IsKeyed k [] h e = cc
  find-IsKeyed k ((j, g) ∷ m) {f} h e = ground (arith, find-IsKeyed k m {f = f} h.1)

  -- The key that is dropped is one of the map's, or the key that the loop began with.
  furthest_found :
      (expected : ℕ) (m all : OrderedMap (EncodedFrame A)) (key far : ℕ)
      → is_some (find key all) ≡ true
      → ((k : ℕ) → is_some (find k m) ≡ true → is_some (find k all) ≡ true)
      → is_some (find (furthest expected m key far) all) ≡ true
  unfolding furthest find
  furthest_found expected [] all key far h sub = h
  furthest_found expected ((k, f) ∷ m) all key far h sub =
      elim (Bool-cases (ltb (distance expected k) 0x8000 && leb far (distance expected k))) [
        | inl e ↦ rw e (
            furthest_found expected m all k (distance expected k) (sub k (ground arith))
              (λ j. λ p. sub j (ground (arith, p))))
        | inr e ↦
            rw e (furthest_found expected m all key far h (λ j. λ p. sub j (ground (arith, p))))
      ]

  furthest_present :
      (expected : ℕ) (m : OrderedMap (EncodedFrame A))
      → 0 < length m
      → is_some (find (furthest expected m (first_key m) 0) m) ≡ true
  unfolding find
  furthest_present expected [] h = ground arith
  furthest_present expected ((k, f) ∷ m) h =
      furthest_found expected ((k, f) ∷ m) ((k, f) ∷ m) k 0 (ground arith) (λ j. λ p. p)

  length-erase_present :
      (k : ℕ) (m : OrderedMap (EncodedFrame A))
      → is_some (find k m) ≡ true
      → length (erase k m) < length m
  length-erase_present k m h = elim (Option-cases (find k m)) [
    | inl e ↦ ground (arith, e)
    | inr (f, e) ↦ length-erase_found k m e
  ]

  length-shrink :
      (fuel expected : ℕ) (m : OrderedMap (EncodedFrame A))
      → length m ≤ fuel + max_pending_frames
      → length (shrink fuel expected m) ≤ max_pending_frames
  unfolding shrink
  length-shrink zero expected m h = omega arith
  length-shrink (suc fuel) expected m h =
      let key = furthest expected m (first_key m) 0 in
      let by_size : max_pending_frames < length m
          → length (erase key m) ≤ fuel + max_pending_frames =
        λ big.
          omega (arith, length-erase_present key m (furthest_present expected m (omega arith))) in
      elim (Bool-cases (ltb max_pending_frames (length m))) [
        | inl e ↦ rw e (
            length-shrink fuel expected (erase key m)
              (by_size (ltb→lt max_pending_frames (length m) e)))
        | inr e ↦ ground arith
      ]

  shrink-IsKeyed :
      (fuel expected : ℕ) (m : OrderedMap (EncodedFrame A))
      → IsKeyed m
      → IsKeyed (shrink fuel expected m)
  unfolding shrink
  shrink-IsKeyed zero expected m h = h
  shrink-IsKeyed (suc fuel) expected m h = ground (
    arith,
    h,
    shrink-IsKeyed fuel expected (erase (furthest expected m (first_key m) 0) m)
        (erase-IsKeyed (furthest expected m (first_key m) 0) m h),
  )

  try_emplace-IsKeyed :
      (f : EncodedFrame A) (m : OrderedMap (EncodedFrame A)) → IsKeyed m → IsKeyed (try_emplace f m)
  unfolding try_emplace
  try_emplace-IsKeyed f m h = ground (arith, h, insert-IsKeyed f m h)

  try_emplace-length :
      (f : EncodedFrame A) (m : OrderedMap (EncodedFrame A))
      → IsKeyed m
      → length m ≤ length (try_emplace f m)
  unfolding try_emplace contains
  try_emplace-length f m h = elim (Option-cases (find f.voice_id m)) [
    | inl e ↦ rw e (ground (arith, length-insert_new f.voice_id f m e))
    | inr (g, e) ↦ rw e (omega arith)
  ]

  pub empty-IsValid : IsValid empty
  empty-IsValid = record { keyed = tt; bounded = omega arith; losses = omega arith }

  keep-IsValid :
      (expected : ℕ) (f : EncodedFrame A) (b : JitterBuffer A)
      → IsValid b
      → IsValid (keep expected f b)
  unfolding keep
  keep-IsValid expected f b h = record {
    keyed =
        shrink-IsKeyed (length (try_emplace f b.pending)) expected (try_emplace f b.pending)
          (try_emplace-IsKeyed f b.pending h.keyed);
    bounded =
        length-shrink (length (try_emplace f b.pending)) expected (try_emplace f b.pending)
          (omega arith);
    losses = h.losses;
  }

  relabelled :
      (b : JitterBuffer A) (expected finish : Option ℕ) (first : Bool)
      → IsValid b
      → IsValid
          (record b { expected_voice_id = expected; end_voice_id = finish; first_output = first })
  relabelled b expected finish first h = record {
    keyed = h.keyed;
    bounded = h.bounded;
    losses = h.losses;
  }

  push_end-IsValid :
      (expected : Option ℕ) (f : EncodedFrame A) (b : JitterBuffer A)
      → IsValid b
      → IsValid (push_end expected f b)
  unfolding push_end
  push_end-IsValid none f b h = relabelled b (some f.voice_id) (some f.voice_id) true h
  push_end-IsValid (some expected) f b h =
      elim (Bool-cases (ltb (distance expected f.voice_id) 0x8000)) [
        | inl e ↦ rw e (relabelled b b.expected_voice_id (some f.voice_id) b.first_output h)
        | inr e ↦ rw e h
      ]

  push_frame-IsValid :
      (expected : Option ℕ) (f : EncodedFrame A) (b : JitterBuffer A)
      → IsValid b
      → IsValid (push_frame expected f b)
  unfolding push_frame
  push_frame-IsValid none f b h =
      keep-IsValid f.voice_id f (begin_at f.voice_id b)
        (relabelled b (some f.voice_id) b.end_voice_id true h)
  push_frame-IsValid (some expected) f b h =
      elim (Bool-cases (leb 0x8000 (distance expected f.voice_id))) [
        | inl e ↦
            rw e
              (elim (Bool-cases (
                not b.started
                && f.talk_start
                && leb (distance f.voice_id expected) max_reorder_distance)) [
                  | inl e' ↦ rw e' (
                      keep-IsValid f.voice_id f (record b { expected_voice_id = some f.voice_id })
                        (relabelled b (some f.voice_id) b.end_voice_id b.first_output h))
                  | inr e' ↦ rw e' h
                ])
        | inr e ↦
            rw e (elim (Bool-cases (ltb max_reorder_distance (distance expected f.voice_id))) [
              | inl e' ↦ rw e' (
                  keep-IsValid f.voice_id f (begin_at f.voice_id empty)
                    (relabelled empty (some f.voice_id) none true empty-IsValid))
              | inr e' ↦ rw e' (keep-IsValid expected f b h)
            ])
      ]

  -- A frame of any kind leaves a valid buffer valid: it holds at most 32 frames, each under its own
  -- voice ID, and has counted at most 3 losses.
  pub push-IsValid : (f : EncodedFrame A) (b : JitterBuffer A) → IsValid b → IsValid (push f b)
  unfolding push push_end push_frame
  push-IsValid f b h = elim (Bool-cases f.talk_end) [
    | inl e ↦ simp e (push_end-IsValid b.expected_voice_id f b h)
    | inr e ↦ simp e (push_frame-IsValid b.expected_voice_id f b h)
  ]
