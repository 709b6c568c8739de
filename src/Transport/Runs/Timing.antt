-- ===== src/Transport/Runs/Timing.antt =====
-- The timers keep the packets that are sent apart: a retransmission is no fresh packet.
use ts_cli.Prelude.{ℕ, Option, none, some, List, [], ◌∷◌, ◌≡◌, refl}
use ts_cli.Binary.{Bytes}
use ts_cli.Reliability.Queue.{collect_due}
use ts_cli.Transport.{SessionCrypto, SessionTransport, TransportError, PendingPing, Act}
use ts_cli.Voice.{VoiceFrame}
use ts_cli.Transport.Receiving.{take_ready_command, take_ready_voice}
use ts_cli.Transport.Timers.{
  Round, collect, retransmit, forget_ping, keep_alive, process_timers, receive_command,
  confirm_command, set_client_id, set_connected, next_ping, read_datagram, receive_round,
}
use ts_cli.Transport.Fresh.{IsSound}
use ts_cli.Transport.Runs.{IsSound-same, Keeps-modify, retire-Keeps}
use ts_cli.Transport.Runs.Calls.{send_ping-Keeps}
use ts_cli.Transport.Runs.Handlers.{process_packet-Keeps}
use ts_cli.Actions.{modify}
use ts_cli.Actions.Keeps.{Keeps, Keeps-return, keeps_rules}

module _ {crypto : SessionCrypto} where
  collect-Keeps : (now : ℕ) → Keeps (IsSound crypto) (collect now)
  unfolding collect
  collect-Keeps now = record {
    at = λ s h.
        IsSound-same s (record s { reliable_commands = (collect_due now s.reliable_commands).0 })
          refl refl h;
  }

  -- What is sent again changes no key.
  retransmit-Keeps : (now : ℕ) (packet : Bytes) → Keeps (IsSound crypto) (retransmit now packet)
  unfolding retransmit modify
  retransmit-Keeps now packet = record {
    at = λ s h. record { tracked = h.tracked; ahead = λ t q e. h.ahead t q e; made = h.made };
  }

  forget_ping-Keeps : Keeps {E = TransportError} (IsSound crypto) (modify forget_ping)
  forget_ping-Keeps = Keeps-modify forget_ping (λ s. refl) (λ s. refl)

  client_id-Keeps :
      (id : ℕ)
      → Keeps {E = TransportError} (IsSound crypto) (modify (λ s. record s { client_id = id }))
  client_id-Keeps id = Keeps-modify (λ s. record s { client_id = id }) (λ s. refl) (λ s. refl)

  pub set_client_id-Keeps : (id : ℕ) → Keeps (IsSound crypto) (set_client_id id)
  unfolding set_client_id
  set_client_id-Keeps id = search (keeps_rules, client_id-Keeps)

  pub set_connected-Keeps : (now : ℕ) → Keeps (IsSound crypto) (set_connected now)
  unfolding set_connected modify
  set_connected-Keeps now = record {
    at = λ s h. IsSound-same s (set_connected now s).1 refl refl h;
  }

  pub confirm_command-Keeps : (id : ℕ) → Keeps (IsSound crypto) (confirm_command id)
  unfolding confirm_command
  confirm_command-Keeps id = search (keeps_rules, retire-Keeps)

  take_ready_command-IsSound :
      (l : List Bytes) (s : SessionTransport)
      → s.ready_commands ≡ l
      → IsSound crypto s
      → IsSound crypto (take_ready_command s).1
  unfolding take_ready_command
  take_ready_command-IsSound [] s e h = rw (take_ready_command, e) h
  take_ready_command-IsSound (x ∷ xs) s e h =
      rw (take_ready_command, e) (IsSound-same s (record s { ready_commands = xs }) refl refl h)

  pub take_ready_command-Keeps : Keeps (IsSound crypto) take_ready_command
  take_ready_command-Keeps = record {
    at = λ s h. take_ready_command-IsSound s.ready_commands s refl h;
  }

  take_ready_voice-IsSound :
      (l : List VoiceFrame) (s : SessionTransport)
      → s.ready_voice ≡ l
      → IsSound crypto s
      → IsSound crypto (take_ready_voice s).1
  unfolding take_ready_voice
  take_ready_voice-IsSound [] s e h = rw (take_ready_voice, e) h
  take_ready_voice-IsSound (x ∷ xs) s e h =
      rw (take_ready_voice, e) (IsSound-same s (record s { ready_voice = xs }) refl refl h)

  pub take_ready_voice-Keeps : Keeps (IsSound crypto) take_ready_voice
  take_ready_voice-Keeps = record { at = λ s h. take_ready_voice-IsSound s.ready_voice s refl h }

module _ (crypto : SessionCrypto) where
  next_ping-Keeps :
      (pending : Option PendingPing) (last_receive_at now : ℕ)
      → Keeps (IsSound crypto) (next_ping crypto pending last_receive_at now)
  unfolding next_ping
  next_ping-Keeps none last_receive_at now = search (keeps_rules, send_ping-Keeps)
  next_ping-Keeps (some p) last_receive_at now =
      search (keeps_rules, send_ping-Keeps, forget_ping-Keeps)

  keep_alive-Keeps : (now : ℕ) → Keeps (IsSound crypto) (keep_alive crypto now)
  unfolding keep_alive
  keep_alive-Keeps now = search (keeps_rules, next_ping-Keeps)

  pub process_timers-Keeps : (now : ℕ) → Keeps (IsSound crypto) (process_timers crypto now)
  unfolding process_timers
  process_timers-Keeps now = search (keeps_rules, collect-Keeps, retransmit-Keeps, keep_alive-Keeps)

  read_datagram-Keeps :
      (now : ℕ) (datagram : Option Bytes)
      → Keeps (IsSound crypto) (read_datagram crypto now datagram)
  unfolding read_datagram
  read_datagram-Keeps now none = Keeps-return tt
  read_datagram-Keeps now (some datagram) = process_packet-Keeps crypto datagram now

  receive_round-Keeps :
      (r : Round) (rest : Act (Option Bytes))
      → Keeps (IsSound crypto) rest
      → Keeps (IsSound crypto) (receive_round crypto r rest)
  unfolding receive_round
  receive_round-Keeps r rest h =
      search (keeps_rules, take_ready_command-Keeps, process_timers-Keeps, read_datagram-Keeps)

  pub receive_command-Keeps :
      (rounds : List Round) → Keeps (IsSound crypto) (receive_command crypto rounds)
  unfolding receive_command
  receive_command-Keeps [] = search (keeps_rules, take_ready_command-Keeps)
  receive_command-Keeps (r ∷ rs) =
      receive_round-Keeps r (receive_command crypto rs) (receive_command-Keeps rs)
