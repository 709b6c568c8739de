-- ===== src/Transport/Operations.antt =====
-- The calls of the public functions of `SessionTransport`, and of its `SendEncrypted` and
-- `SendUnencrypted` with any arguments, in any order.
use ts_cli.Prelude.{ℕ, Bool, List, [], ◌∷◌}
use ts_cli.Binary.{Bytes}
use ts_cli.Transport.{SessionCrypto, SessionTransport, Act}
use ts_cli.Transport.Sending.{
  send_packet, send_command, send_voice, send_voice_whisper, send_group_whisper,
}
use ts_cli.Transport.Receiving.{process_packet, take_ready_command, take_ready_voice}
use ts_cli.Transport.Timers.{
  Round, process_timers, receive_command, confirm_command, set_client_id, set_connected,
}
use ts_cli.Actions.{return, ◌>>=◌}

-- A call with its arguments and its time
pub data Operation : Type 0 where
  call_send_packet : Bool → ℕ → ℕ → Bytes → ℕ → Operation
  call_send_command : Bytes → ℕ → Operation
  call_send_voice : ℕ → Bytes → Bool → Bool → ℕ → Operation
  call_send_voice_whisper : ℕ → List ℕ → List ℕ → Bytes → Bool → Bool → ℕ → Operation
  call_send_group_whisper : ℕ → ℕ → ℕ → ℕ → Bytes → Bool → Bool → ℕ → Operation
  call_process_packet : Bytes → ℕ → Operation
  call_process_timers : ℕ → Operation
  call_receive_command : List Round → Operation
  call_take_command call_take_voice : Operation
  call_confirm_command call_set_client_id call_set_connected : ℕ → Operation

module _ (crypto : SessionCrypto) where
  -- What a call returns is left out.
  unfoldable pub perform : Operation → Act (Unit {0})
  perform (call_send_packet encrypted type flags payload now) =
      send_packet crypto encrypted type flags payload now
  perform (call_send_command bytes now) = send_command crypto bytes now >>= λ id. return tt
  perform (call_send_voice codec bytes encrypted start now) =
      send_voice crypto codec bytes encrypted start now
  perform (call_send_voice_whisper codec channels clients bytes encrypted start now) =
      send_voice_whisper crypto codec channels clients bytes encrypted start now
  perform (call_send_group_whisper codec type target target_id bytes encrypted start now) =
      send_group_whisper crypto codec type target target_id bytes encrypted start now
  perform (call_process_packet datagram now) = process_packet crypto datagram now
  perform (call_process_timers now) = process_timers crypto now
  perform (call_receive_command rounds) = receive_command crypto rounds >>= λ bytes. return tt
  perform call_take_command = take_ready_command >>= λ bytes. return tt
  perform call_take_voice = take_ready_voice >>= λ frame. return tt
  perform (call_confirm_command id) = confirm_command id
  perform (call_set_client_id id) = set_client_id id
  perform (call_set_connected now) = set_connected now

  -- The state behind some calls, those that throw among them
  unfoldable pub run : List Operation → SessionTransport → SessionTransport
  run [] s = s
  run (o ∷ os) s = run os (perform o s).1
