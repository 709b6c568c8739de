-- ===== src/Tests/Voices.antt =====
-- The theorems on voice at concrete inputs.
use ts_cli.Prelude.{
  ℕ, ◌+◌, ◌*◌, ◌^◌, true, false, none, some, [], ◌∷◌, ok, err, ltb, if◌then◌else◌, ◌≡◌, refl, arith,
}
use ts_cli.Binary.{Bytes, reader, write_bytes, IsU32}
use ts_cli.Packet.PacketFlags
use ts_cli.Packet.PacketFlags.{has_flag}
use ts_cli.Voice.{
  encode_client_whisper, encode_client_group_whisper, decode_server, fragmented_voice,
  unsupported_codec, opus_music,
}
use ts_cli.Voice.Frames.{decode_server_lem}
use ts_cli.Jitter.{EncodedFrame, JitterBuffer, push, pull}
use ts_cli.Jitter.Bounds
use ts_cli.Jitter.Bounds.{push-IsValid}
use ts_cli.Jitter.Playback.{IsPulled, pull-IsPulled}
use ts_cli.Tests.{two}

decode_server_lem_example : decode_server (0 ∷ 7 ∷ 0 ∷ 3 ∷ 4 ∷ two) 0x40 false ≡ (
    if has_flag 0x40 PacketFlags.fragmented
    then err fragmented_voice
    else if ltb opus_music 4
    then err unsupported_codec
    else ok (record {
      voice_id = 0 * 2 ^ 8 + 7;
      client_id = 0 * 2 ^ 8 + 3;
      codec = 4;
      bytes = two;
      talk_start = has_flag 0x40 PacketFlags.compressed;
      talk_end = false;
      whisper = false;
    }))
decode_server_lem_example = decode_server_lem 0 7 0 3 4 two 0x40 false (omega arith)

abbrev whispered : Bytes
whispered = 0 ∷ 7 ∷ 4 ∷ 1 ∷ 1 ∷ 0 ∷ 0 ∷ 0 ∷ 0 ∷ 0 ∷ 0 ∷ 0 ∷ 5 ∷ 0 ∷ 6 ∷ two

whisper_encoded : encode_client_whisper 7 4 (5 ∷ []) (6 ∷ []) two ≡ ok whispered
unfolding encode_client_whisper write_bytes ts_cli.Binary.write_u16 ts_cli.Binary.write_u64
    ts_cli.Binary.write_u8
whisper_encoded = refl

abbrev group_whispered : Bytes
group_whispered = 0 ∷ 7 ∷ 4 ∷ 2 ∷ 1 ∷ 0 ∷ 0 ∷ 0 ∷ 0 ∷ 0 ∷ 0 ∷ 0 ∷ 9 ∷ two

group_whisper_encoded : encode_client_group_whisper 7 4 2 1 9 two ≡ ok group_whispered
unfolding encode_client_group_whisper write_bytes ts_cli.Binary.write_u64 ts_cli.Binary.write_u8
    ts_cli.Binary.write_u16
group_whisper_encoded = refl

abbrev voice_frame : ℕ → EncodedFrame Bytes
voice_frame id = record { voice_id = id; talk_start = false; talk_end = false; content = two }

-- A buffer that plays, with the expected frame and one that is two ahead.
abbrev playing : JitterBuffer Bytes
playing = record {
  expected_voice_id = some 65535;
  end_voice_id = none;
  pending = (1, voice_frame 1) ∷ (65535, voice_frame 65535) ∷ [];
  consecutive_losses = 1;
  started = true;
  first_output = false;
}

playing-IsValid : Bounds.IsValid playing
playing-IsValid = record { keyed = (refl, (refl, tt)); bounded = omega arith; losses = omega arith }

push-IsValid_example : Bounds.IsValid (push (voice_frame 0) playing)
push-IsValid_example = push-IsValid (voice_frame 0) playing playing-IsValid

pull-IsPulled_example : IsPulled playing (pull playing)
pull-IsPulled_example = pull-IsPulled playing playing-IsValid
