-- ===== src/Packet/Fragmenter.antt =====
-- protocol/src/packet/command_fragmenter.cpp: how a command is cut into packets.
pub mod Cover
use ts_cli.Prelude.{
  ℕ, zero, suc, ◌+◌, ◌-◌, min, ◌||◌, List, [], ◌∷◌, ◌++◌, Result, ok, err, ltb, leb, ◌==◌,
  if◌then◌else◌,
}
use ts_cli.Packet.Limits
use ts_cli.Packet.PacketFlags.{fragmented, new_protocol, join_flags}

pub record CommandFragment : Type 0 where
  pub offset : ℕ
  pub size : ℕ
  pub flags : ℕ

-- `out_of_fuel` is no C++ value: the loop of `plan` never ends so.
pub data PlanError : Type 0 where
  command_too_large out_of_fuel : PlanError

abbrev pub fragment_flags : ℕ → ℕ → ℕ → ℕ
fragment_flags offset size command_size =
    if offset == 0 || offset + size == command_size
    then join_flags new_protocol fragmented
    else new_protocol

unfoldable pub plan_loop :
    ℕ → ℕ → ℕ → List CommandFragment → Result PlanError (List CommandFragment)
plan_loop zero command_size offset fragments = err out_of_fuel
plan_loop (suc fuel) command_size offset fragments =
    let size = min Limits.max_client_payload (command_size - offset) in
    let fragment : CommandFragment = record {
      offset = offset;
      size = size;
      flags = fragment_flags offset size command_size;
    } in
    let more = plan_loop fuel command_size (offset + size) (fragments ++ (fragment ∷ [])) in
    if ltb offset command_size then more else ok fragments

-- A round adds a byte at least, so that the size of the command and one more is enough fuel.
unfoldable pub plan : ℕ → Result PlanError (List CommandFragment)
unfolding plan_loop
plan command_size =
    if ltb Limits.max_command_size command_size
    then err command_too_large
    else if leb command_size Limits.max_client_payload
    then ok (record { offset = 0; size = command_size; flags = new_protocol } ∷ [])
    else plan_loop (command_size + 1) command_size 0 []
