-- ===== src/Voice.antt =====
-- protocol/src/voice/voice_codec.cpp: voice payloads. A codec, a group whisper type and a target are
-- enumerations over `uint8_t`, here their numbers.
pub mod Frames
use ts_cli.Prelude.{
  ℕ, ◌+◌, ◌*◌, Bool, true, false, ◌||◌, List, [], ◌∷◌, Result, ok, err, ◌>>=◌, ◌>>◌, throw_if, ltb,
  length, if◌then◌else◌,
}
use ts_cli.Binary.{
  Bytes, reader, read_u8, read_u16, read_bytes, remaining, sub64, write_u8, write_u16, write_u64,
  write_bytes,
}
use ts_cli.Packet.Limits
use ts_cli.Packet.PacketFlags
use ts_cli.Packet.PacketFlags.{has_flag}

-- `VoiceCodec::OpusMusic`
abbrev pub opus_music : ℕ
opus_music = 5

-- `GroupWhisperType::AllClients`
abbrev pub all_clients : ℕ
all_clients = 3

-- `GroupWhisperTarget::Subchannels`
abbrev pub subchannels : ℕ
subchannels = 6

pub record VoiceFrame : Type 0 where
  pub voice_id : ℕ
  pub client_id : ℕ
  pub codec : ℕ
  pub bytes : Bytes
  pub talk_start : Bool
  pub talk_end : Bool
  pub whisper : Bool

pub data VoiceError : Type 0 where
  unsupported_codec frame_too_large too_many_channels too_many_clients : VoiceError
  unsupported_whisper_type unsupported_whisper_target : VoiceError
  fragmented_voice payload_too_small truncated : VoiceError

abbrev pub validate_codec : ℕ → Result VoiceError (Unit {0})
validate_codec codec = throw_if (ltb opus_music codec) unsupported_codec

abbrev pub validate_payload_size : ℕ → ℕ → Result VoiceError (Unit {0})
validate_payload_size metadata_size data_size =
    throw_if
      (ltb Limits.max_client_payload metadata_size
        || ltb (sub64 Limits.max_client_payload metadata_size) data_size)
      frame_too_large

unfoldable pub encode_client : ℕ → ℕ → Bytes → Result VoiceError Bytes
encode_client voice_id codec bytes = do
  validate_codec codec
  validate_payload_size 3 (length bytes)
  ok (write_bytes bytes (write_u8 codec (write_u16 voice_id [])))

abbrev pub write_channels : List ℕ → Bytes → Bytes
write_channels [] out = out
write_channels (c ∷ cs) out = write_channels cs (write_u64 c out)

abbrev pub write_clients : List ℕ → Bytes → Bytes
write_clients [] out = out
write_clients (c ∷ cs) out = write_clients cs (write_u16 c out)

unfoldable pub encode_client_whisper : ℕ → ℕ → List ℕ → List ℕ → Bytes → Result VoiceError Bytes
encode_client_whisper voice_id codec channel_ids client_ids bytes = do
  validate_codec codec
  throw_if (ltb 255 (length channel_ids)) too_many_channels
  throw_if (ltb 255 (length client_ids)) too_many_clients
  validate_payload_size (5 + length channel_ids * 8 + length client_ids * 2) (length bytes)
  ok (
      write_bytes bytes (
        write_clients client_ids (
          write_channels channel_ids (
            write_u8 (length client_ids)
              (write_u8 (length channel_ids) (write_u8 codec (write_u16 voice_id [])))))))

unfoldable pub encode_client_group_whisper : ℕ → ℕ → ℕ → ℕ → ℕ → Bytes → Result VoiceError Bytes
encode_client_group_whisper voice_id codec whisper_type target target_id bytes = do
  validate_codec codec
  throw_if (ltb all_clients whisper_type) unsupported_whisper_type
  throw_if (ltb subchannels target) unsupported_whisper_target
  validate_payload_size 13 (length bytes)
  ok (
      write_bytes bytes (
        write_u64 target_id
          (write_u8 target (write_u8 whisper_type (write_u8 codec (write_u16 voice_id []))))))

abbrev pub is_empty : Bytes → Bool
is_empty [] = true
is_empty (b ∷ bs) = false

-- `DecodeServer`; `truncated` is the reader's own exception.
unfoldable pub decode_server : Bytes → ℕ → Bool → Result VoiceError VoiceFrame
decode_server payload flags whisper =
    if has_flag flags PacketFlags.fragmented
    then err fragmented_voice
    else if ltb (length payload) 5
    then err payload_too_small
    else elim (read_u16 (reader payload)) [
      | err e ↦ err truncated
      | ok (voice_id, r1) ↦ elim (read_u16 r1) [
        | err e ↦ err truncated
        | ok (client_id, r2) ↦ elim (read_u8 r2) [
          | err e ↦ err truncated
          | ok (codec, r3) ↦
              if ltb opus_music codec
              then err unsupported_codec
              else elim (read_bytes (remaining r3) r3) [
                | err e ↦ err truncated
                | ok (bytes, r4) ↦ ok (record {
                  voice_id = voice_id;
                  client_id = client_id;
                  codec = codec;
                  bytes = bytes;
                  talk_start = has_flag flags PacketFlags.compressed;
                  talk_end = is_empty bytes;
                  whisper = whisper;
                })
              ]
        ]
      ]
    ]
