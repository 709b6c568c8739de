-- ===== src/Voice/Frames.antt =====
-- Sizes of the client's voice payloads, and what the server's give.
use ts_cli.Prelude.{
  ℕ, ◌+◌, ◌*◌, ◌^◌, ◌≤◌, ◌<◌, Bool, List, [], ◌∷◌, ok, err, ltb, length, length-append, take_all,
  if◌then◌else◌, ◌≡◌, arith,
}
use native.Mathlib.Nat.{add_assoc}
use ts_cli.Binary.{Bytes, reader, write_u8, write_u16, write_u64, write_bytes}
use ts_cli.Binary.Views.{
  Sees, moved, reader-Sees, Sees-moved, remaining-Sees, read_u8-Sees, read_u16-Sees,
  read_bytes-Sees,
}
use ts_cli.Packet.Limits
use ts_cli.Packet.PacketFlags
use ts_cli.Packet.PacketFlags.{has_flag}
use ts_cli.Voice.{
  opus_music, unsupported_codec, fragmented_voice, encode_client, encode_client_whisper,
  encode_client_group_whisper, write_channels, write_clients, is_empty, decode_server,
}

length-write_u16 : (v : ℕ) (out : Bytes) → length (write_u16 v out) ≡ length out + 2
unfolding write_u16
length-write_u16 v out = simp (length-append, add_assoc)

length-write_u64 : (v : ℕ) (out : Bytes) → length (write_u64 v out) ≡ length out + 8
unfolding write_u64
length-write_u64 v out = simp (length-append, add_assoc)

length-write_u8 : (v : ℕ) (out : Bytes) → length (write_u8 v out) ≡ length out + 1
unfolding write_u8
length-write_u8 v out = length-append out (v ∷ [])

length-write_bytes :
    (bytes out : Bytes) → length (write_bytes bytes out) ≡ length out + length bytes
unfolding write_bytes
length-write_bytes bytes out = length-append out bytes

length-write_channels :
    (cs : List ℕ) (out : Bytes) → length (write_channels cs out) ≡ length out + length cs * 8
length-write_channels [] out = omega arith
length-write_channels (c ∷ cs) out =
    omega (arith, length-write_channels cs (write_u64 c out), length-write_u64 c out)

length-write_clients :
    (cs : List ℕ) (out : Bytes) → length (write_clients cs out) ≡ length out + length cs * 2
length-write_clients [] out = omega arith
length-write_clients (c ∷ cs) out =
    omega (arith, length-write_clients cs (write_u16 c out), length-write_u16 c out)

-- A voice payload that is encoded has three bytes and the data, and fits a packet.
pub encode_client_size :
    (voice_id codec : ℕ) (bytes out : Bytes)
    → encode_client voice_id codec bytes ≡ ok out
    → (length out ≡ 3 + length bytes) × (length out ≤ Limits.max_client_payload)
unfolding encode_client
encode_client_size voice_id codec bytes out e =
    let front = write_u8 codec (write_u16 voice_id []) in
    ground (
      arith,
      e,
      length-write_bytes bytes front,
      length-write_u8 codec (write_u16 voice_id []),
      length-write_u16 voice_id [],
    )

-- A whisper to listed channels and clients that is encoded has five bytes, eight for each channel, two for
-- each client and the data; it fits a packet, and names 255 channels and 255 clients at most.
pub encode_client_whisper_size :
    (voice_id codec : ℕ) (channel_ids client_ids : List ℕ) (bytes out : Bytes)
    → encode_client_whisper voice_id codec channel_ids client_ids bytes ≡ ok out
    → (length out ≡ 5 + length channel_ids * 8 + length client_ids * 2 + length bytes)
      × (length out ≤ Limits.max_client_payload)
      × (length channel_ids ≤ 255)
      × (length client_ids ≤ 255)
unfolding encode_client_whisper
encode_client_whisper_size voice_id codec channel_ids client_ids bytes out e =
    let w2 = write_u16 voice_id [] in
    let w3 = write_u8 codec w2 in
    let w4 = write_u8 (length channel_ids) w3 in
    let w5 = write_u8 (length client_ids) w4 in
    let w6 = write_channels channel_ids w5 in
    let w7 = write_clients client_ids w6 in
    let total : length (write_bytes bytes w7)
        ≡ 5 + length channel_ids * 8 + length client_ids * 2 + length bytes =
      omega (
        arith,
        length-write_bytes bytes w7,
        length-write_clients client_ids w6,
        length-write_channels channel_ids w5,
        length-write_u8 (length client_ids) w4,
        length-write_u8 (length channel_ids) w3,
        length-write_u8 codec w2,
        length-write_u16 voice_id [],
      ) in
    ground (arith, e, total)

-- A group whisper that is encoded has thirteen bytes and the data, and fits a packet.
pub encode_client_group_whisper_size :
    (voice_id codec whisper_type target target_id : ℕ) (bytes out : Bytes)
    → encode_client_group_whisper voice_id codec whisper_type target target_id bytes ≡ ok out
    → (length out ≡ 13 + length bytes) × (length out ≤ Limits.max_client_payload)
unfolding encode_client_group_whisper
encode_client_group_whisper_size voice_id codec whisper_type target target_id bytes out e =
    let w2 = write_u16 voice_id [] in
    let w3 = write_u8 codec w2 in
    let w4 = write_u8 whisper_type w3 in
    let w5 = write_u8 target w4 in
    let w6 = write_u64 target_id w5 in
    ground (
      arith,
      e,
      length-write_bytes bytes w6,
      length-write_u64 target_id w5,
      length-write_u8 target w4,
      length-write_u8 whisper_type w3,
      length-write_u8 codec w2,
      length-write_u16 voice_id [],
    )

-- `DecodeServer` on a payload of five bytes at least: fragments, then codecs above the last, are refused,
-- and all else is the frame of its IDs and its data, whose talk ends if it has no data. The reader's own
-- exception never leaves it.
pub decode_server_lem :
    (v1 v0 c1 c0 codec : ℕ) (bytes : Bytes) (flags : ℕ) (whisper : Bool)
    → length bytes < 2 ^ 63
    → decode_server (v1 ∷ v0 ∷ c1 ∷ c0 ∷ codec ∷ bytes) flags whisper ≡ (
        if has_flag flags PacketFlags.fragmented
        then err fragmented_voice
        else if ltb opus_music codec
        then err unsupported_codec
        else ok (record {
          voice_id = v1 * 2 ^ 8 + v0;
          client_id = c1 * 2 ^ 8 + c0;
          codec = codec;
          bytes = bytes;
          talk_start = has_flag flags PacketFlags.compressed;
          talk_end = is_empty bytes;
          whisper = whisper;
        }))
unfolding decode_server
decode_server_lem v1 v0 c1 c0 codec bytes flags whisper fits =
    let all = v1 ∷ v0 ∷ c1 ∷ c0 ∷ codec ∷ bytes in
    let s0 = reader-Sees all in
    let s1 : Sees (moved (reader all) 2) (c1 ∷ c0 ∷ codec ∷ bytes) =
      Sees-moved 2 s0 (omega arith) in
    let s2 : Sees (moved (moved (reader all) 2) 2) (codec ∷ bytes) =
      Sees-moved 2 s1 (omega arith) in
    let s3 : Sees (moved (moved (moved (reader all) 2) 2) 1) bytes =
      Sees-moved 1 s2 (omega arith) in
    ground (
      arith,
      read_u16-Sees v1 v0 s0,
      read_u16-Sees c1 c0 s1,
      read_u8-Sees codec s2,
      remaining-Sees s3,
      read_bytes-Sees (length bytes) s3,
      take_all (length bytes) bytes,
    )
