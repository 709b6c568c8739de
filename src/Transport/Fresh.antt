-- ===== src/Transport/Fresh.antt =====
-- No two packets of a type are sent for the first time with the same ID and generation, from which
-- the key and the nonce of their encryption are made.
use ts_cli.Prelude.{
  ℕ, Bool, ◌+◌, ◌-◌, ◌^◌, ◌<◌, true, false, List, [], ◌∷◌, Result, ok, err, leb, length, set,
  if◌then◌else◌, Bool-cases, Result-cases, ◌≡◌, ◌⊎◌, inl, inr, refl, sym, ◌∙◌, arith, ◌==◌,
}
use mathlib.Core.Path.{subst}
use ts_cli.Packet.Sequence.{PacketSequence, key_of, advance}
use ts_cli.Packet.Sequence.Keys.{IsValid, advance-key_of}
use ts_cli.Packet.SequenceState.{
  PacketSequenceState, outgoing_of, set_outgoing, index, tracked_packet_type_count,
  outgoing_of-set_outgoing,
}
use ts_cli.Transport.{
  SessionCrypto, SessionTransport, TransportError, Transmission, fresh, again, Act, outgoing,
  save_outgoing, transmit, ipv4_udp_overhead,
}
use ts_cli.Transport.Sending.{create_packet}
use ts_cli.Statistics.Recording.{record_sent}
use ts_cli.Actions.{gets, modify, call, continue, ◌>>=◌, ◌>>◌}
use ts_cli.Actions.Keeps.{Keeps}

abbrev pub last_key : ℕ
last_key = 2 ^ 48 - 1

-- A key is below another, or both are the last of all, behind which `Advance` throws.
abbrev pub IsBefore : ℕ → ℕ → Type 0
IsBefore key bound = (key < bound) ⊎ ((key ≡ last_key) × (bound ≡ last_key))

pub IsBefore-transitive : (a b c : ℕ) → IsBefore a b → IsBefore b c → IsBefore a c
IsBefore-transitive a b c ab bc = ground (arith, ab, bc)

-- The keys of the fresh packets of a type descend from a bound.
abbrev pub Descends : ℕ → ℕ → List Transmission → Type 0
Descends type bound [] = Unit
Descends type bound (again b ∷ rest) = Descends type bound rest
Descends type bound (fresh t q b ∷ rest) =
    (t ≡ type → IsValid q × IsBefore (key_of q) bound)
    × Descends type (if t == type then key_of q else bound) rest

Descends-same :
    (type bound : ℕ) (q : PacketSequence) (b : List ℕ) (rest : List Transmission)
    → IsValid q
    → IsBefore (key_of q) bound
    → Descends type (key_of q) rest
    → Descends type bound (fresh type q b ∷ rest)
Descends-same type bound q b rest valid below h =
    let same : (type == type) ≡ true = ground arith in (λ e. (valid, below), rw same h)

Descends-other :
    (t type bound : ℕ) (q : PacketSequence) (b : List ℕ) (rest : List Transmission)
    → (t == type) ≡ false
    → Descends type bound rest
    → Descends type bound (fresh t q b ∷ rest)
Descends-other t type bound q b rest other h = (λ e. absurd (ground (arith, other, e)), rw other h)

-- A packet that is made with a sequence of its type: of any flags and payload, for any client.
abbrev pub IsMade : SessionCrypto → ℕ → PacketSequence → List ℕ → Type 0
IsMade crypto type q b =
    (encrypted : Bool) × (flags : ℕ) × (payload : List ℕ) × (client_id : ℕ) × (b
      ≡ create_packet crypto encrypted type flags payload q client_id)

abbrev pub AreMade : SessionCrypto → List Transmission → Type 0
AreMade crypto [] = Unit
AreMade crypto (again b ∷ rest) = AreMade crypto rest
AreMade crypto (fresh t q b ∷ rest) = IsMade crypto t q b × AreMade crypto rest

-- The outgoing sequences are valid and ahead of what has been sent.
pub record IsSound (crypto : SessionCrypto) (s : SessionTransport) : Type 0 where
  pub tracked : length s.sequences.outgoing ≡ tracked_packet_type_count
  pub ahead :
      (type : ℕ) (q : PacketSequence)
      → outgoing_of type s.sequences ≡ ok q
      → IsValid q × Descends type (key_of q) s.sent
  pub made : AreMade crypto s.sent

-- From a sound state whose next packet of a type has a sequence.
abbrev pub IsNext : SessionCrypto → ℕ → PacketSequence → SessionTransport → Type 0
IsNext crypto type q s = IsSound crypto s × (outgoing_of type s.sequences ≡ ok q)

-- An action leads from states of one kind to those of another, whether it returns or throws.
pub record Leads {A : Type 0} (P Q : SessionTransport → Type 0) (m : Act A) : Type 0 where
  pub at : (s : SessionTransport) → P s → Q (m s).1

module _ {A B : Type 0} where
  Leads-continue :
      (o : Result TransportError A × SessionTransport) (f : A → Act B)
      (P Q : SessionTransport → Type 0)
      → ((s : SessionTransport) → P s → Q s)
      → P o.1
      → ((a : A) → Leads P Q (f a))
      → Q (continue o f).1
  Leads-continue (ok a, s) f P Q weaken h leads = (leads a).at s h
  Leads-continue (err e, s) f P Q weaken h leads = weaken s h

module _ {crypto : SessionCrypto} {A B : Type 0} where
  pub IsNext-bind :
      (type : ℕ) (q : PacketSequence) (m : Act A) (f : A → Act B)
      → Keeps (IsNext crypto type q) m
      → ((a : A) → Leads (IsNext crypto type q) (IsSound crypto) (f a))
      → Leads (IsNext crypto type q) (IsSound crypto) (m >>= f)
  unfolding ◌>>=◌
  IsNext-bind type q m f keeps leads = record {
    at = λ s h.
        Leads-continue (m s) f (IsNext crypto type q) (IsSound crypto) (λ s' h'. h'.0)
          (keeps.at s h) leads;
  }

module _ {crypto : SessionCrypto} {B : Type 0} where
  pub Leads-then :
      (type : ℕ) (q : PacketSequence) (m : Act (Unit {0})) (n : Act B)
      → Leads (IsNext crypto type q) (IsSound crypto) m
      → Keeps (IsSound crypto) n
      → Leads (IsNext crypto type q) (IsSound crypto) (m >> n)
  unfolding ◌>>=◌ ◌>>◌
  Leads-then type q m n leads keeps = record {
    at = λ s h.
        Leads-continue (m s) (λ done. n) (IsSound crypto) (IsSound crypto) (λ s' h'. h')
          (leads.at s h) (λ done. record { at = keeps.at });
  }

  -- Reading the state, and then what uses it.
  pub gets-bind :
      {A : Type 0} (type : ℕ) (q : PacketSequence) (read : SessionTransport → A) (f : A → Act B)
      → ((s : SessionTransport) → Leads (IsNext crypto type q) (IsSound crypto) (f (read s)))
      → Leads (IsNext crypto type q) (IsSound crypto) (gets read >>= f)
  unfolding ◌>>=◌ gets
  gets-bind type q read f leads = record { at = λ s h. (leads s).at s h }

  -- Reading the sequence of a type, and then what uses it.
  pub outgoing-bind :
      (type : ℕ) (f : PacketSequence → Act B)
      → ((q : PacketSequence) → Leads (IsNext crypto type q) (IsSound crypto) (f q))
      → Keeps (IsSound crypto) (outgoing type >>= f)
  unfolding ◌>>=◌ outgoing call
  outgoing-bind type f leads = record {
    at = λ s h. elim (Result-cases (outgoing_of type s.sequences)) [
      | inr (e, failed) ↦ rw failed h
      | inl (q, given) ↦ rw given ((leads q).at s (h, given))
    ];
  }

-- A packet is sent with the next sequence of its type, and the sequence advances.
transmitted-IsSound :
    {crypto : SessionCrypto} (type : ℕ) (q : PacketSequence) (b : List ℕ) (s s' : SessionTransport)
    → IsNext crypto type q s
    → IsMade crypto type q b
    → s'.sent ≡ fresh type q b ∷ s.sent
    → length s'.sequences.outgoing ≡ tracked_packet_type_count
    → ((t : ℕ) → (type == t) ≡ false → outgoing_of t s'.sequences ≡ outgoing_of t s.sequences)
    → ((q' : PacketSequence)
        → outgoing_of type s'.sequences ≡ ok q'
        → IsValid q' × IsBefore (key_of q) (key_of q'))
    → IsSound crypto s'
transmitted-IsSound type q b s s' (h, e) made sent tracked others own = record {
  tracked = tracked;
  ahead = λ t q' e'. elim (Bool-cases (type == t)) [
    | inr other ↦
        let (valid, descends) = h.ahead t q' (sym (others t other) ∙ e') in
        (valid, rw sent (Descends-other type t (key_of q') q b s.sent other descends))
    | inl same ↦
        let at : type ≡ t = ground (arith, same) in
        let (valid, below) = own q' (rw at e') in
        let (valid', descends) = h.ahead type q e in
        (
          valid,
          rw sent (
              subst (λ x. Descends x (key_of q') (fresh type q b ∷ s.sent)) at
                (Descends-same type (key_of q') q b s.sent valid' below descends)),
        )
  ];
  made = rw sent (made, h.made);
}

-- The state behind `Send` and `RecordSent`.
abbrev pub logged : ℕ → PacketSequence → List ℕ → ℕ → SessionTransport → SessionTransport
logged type q packet now s = record s {
  sent = fresh type q packet ∷ s.sent;
  counters = record_sent type (length packet + ipv4_udp_overhead) now s.counters;
}

pub set_outgoing-returns :
    (type : ℕ) (q n : PacketSequence) (m : PacketSequenceState)
    → outgoing_of type m ≡ ok q
    → (m' : PacketSequenceState) × (set_outgoing type n m ≡ ok m')
unfolding outgoing_of set_outgoing index
set_outgoing-returns type q n m e = elim (Bool-cases (leb tracked_packet_type_count type)) [
  | inl untracked ↦ absurd (ground (arith, untracked, e))
  | inr tracked ↦ (record m { outgoing = set m.outgoing type n }, rw tracked refl)
]

pub transmit-Leads :
    {crypto : SessionCrypto} (type : ℕ) (q : PacketSequence) (packet : List ℕ) (now : ℕ)
    → IsMade crypto type q packet
    → Leads (IsNext crypto type q) (IsSound crypto) (transmit type q packet now)
unfolding transmit ◌>>=◌ ◌>>◌ modify call save_outgoing
transmit-Leads type q packet now made = record {
  at = λ s next.
      let (h, e) = next in
      let (valid, descends) = h.ahead type q e in
      elim (Result-cases (advance q)) [
        | inr (x, failed) ↦
            let (overflow, last) = (rw failed at (advance-key_of q valid)) in
            rw failed (
              transmitted-IsSound type q packet s (logged type q packet now s) next made refl
                h.tracked (λ t other. refl)
                (λ q' e'.
                  let same : ok q ≡ ok q' = sym e ∙ e' in
                  let it : q ≡ q' = cc in ((h.ahead type q' e').0, inr (last, rw⁻¹ it last))))
        | inl (n, stepped) ↦
            let (valid', step) = (rw stepped at (advance-key_of q valid)) in
            let (m, written) = set_outgoing-returns type q n s.sequences e in
            let reads =
              λ (t : ℕ). outgoing_of-set_outgoing type t n s.sequences m h.tracked written in
            let same_type : (type == type) ≡ true = ground arith in
            let own : outgoing_of type m ≡ ok n = (rw same_type at ((reads type).0)) in
            rw (save_outgoing, stepped, written)
              (transmitted-IsSound type q packet s
                (record (logged type q packet now s) { sequences = m }) next made refl
                ((reads type).2) (λ t other. rw other at ((reads t).0))
                (λ q' e'.
                  let same : ok n ≡ ok q' = sym own ∙ e' in
                  let it : n ≡ q' = cc in
                  (subst IsValid it valid', inl (rw⁻¹ it (omega (arith, step))))))
      ];
}
