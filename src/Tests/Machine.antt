-- ===== src/Tests/Machine.antt =====
-- The dummy emulator, run.
use emulator_networkaccess.Prelude.{
  inl, map, All, length, ◌≤◌, pos, true, Option, none, some, List, [], ◌∷◌, ◌++◌, Bytes, codes, ◌≡◌,
  refl, arith,
}
use emulator_networkaccess.Protocol.{
  Command, emulation_pause, emulation_resume, emulation_stop, emulation_status, core_read,
  emulator_info, load_game,
}
use emulator_networkaccess.World.{done, fault, out_of_bounds_read, World, write}
use emulator_networkaccess.Offset.{get_offset, atoll}
use emulator_networkaccess.Offset.Print.{print_digits}
use emulator_networkaccess.Reply.{send_binary_block}
use emulator_networkaccess.Reply.Sent.{delivered}
use emulator_networkaccess.Reply.Parse.{parse_reply}
use emulator_networkaccess.Command.Format.{format_command, IsNameByte}
use emulator_networkaccess.Dispatch.{find_custom, execute_command}
use emulator_networkaccess.Dispatch.Names.{spelling}
use emulator_networkaccess.Framing.Parts.{kept}
use emulator_networkaccess.Framing.Loop.{preprocess_data}
use emulator_networkaccess.Framing.Blocks.{block_message}
use emulator_networkaccess.Framing.Exchange.{IsLine}
use emulator_networkaccess.Framing.CoreWrite.{core_write_name, written}
use emulator_networkaccess.Dummy.Memory.{wram, Area, Dummy, memory_of, set_memory, find_area}
use emulator_networkaccess.Dummy.Commands.{atoi, dummy_core_memory_read}
use emulator_networkaccess.Dummy.Machine.{dummy_emulator}
use emulator_networkaccess.Dummy.Reading.{dummy_core_memory_read_past_end}
use emulator_networkaccess.Dummy.Exchange.{core_write-pending, core_write_loses}
use emulator_networkaccess.Client.{Client, buffer_size}
use emulator_networkaccess.Dummy.WriteBlock.{splice}
use emulator_networkaccess.Framing.Reads.{read_all}
use emulator_networkaccess.Framing.Plain.{answered}
use emulator_networkaccess.Dummy.CoreRead.{core_read-range}
use emulator_networkaccess.Dummy.Control.{transition, transitions, request}
use emulator_networkaccess.Dummy.Status.{read_all-status}
use emulator_networkaccess.Dummy.Silent.{execute_command_silent}
use emulator_networkaccess.Dummy.Program.{static_dummy}
use emulator_networkaccess.Tests.Fixture.{fresh}
use emulator_networkaccess.Tests.Streams.{fresh-IsValid}

abbrev pub eight_bytes : Bytes
eight_bytes = 10 ∷ 11 ∷ 12 ∷ 13 ∷ 14 ∷ 15 ∷ 16 ∷ 17 ∷ []

abbrev machine : Dummy
machine = record (static_dummy (codes "game.sfc")) { wram_memory = some eight_bytes }

abbrev machine_world : World Dummy
machine_world = record { emulator = machine; trace = [] }

abbrev with_header : World Dummy
with_header = record { emulator = record machine { size_header_get = true }; trace = [] }

abbrev range_args : List Bytes
range_args = codes "WRAM" ∷ codes "1" ∷ codes "6" ∷ []

range-IsLine : IsLine core_write_name range_args
range-IsLine = record {
  name_bytes = omega arith;
  arg_bytes = omega arith;
  no_space = omega arith;
  few_args = omega arith;
  short = omega arith;
}

wram_named : (before : Option Area) → find_area before (codes "WRAM") ≡ some wram
unfolding find_area
wram_named before = refl

eight_there : memory_of wram machine ≡ some eight_bytes
unfolding memory_of
eight_there = refl

six_is_six : atoi (codes "6") ≡ 6
unfolding atoll
six_is_six = refl

one_is_one : get_offset (codes "1") ≡ 1
unfolding get_offset
one_is_one = refl

no_custom_write : find_custom 0 (dummy_emulator []).custom core_write_name ≡ none
unfolding find_custom
no_custom_write = refl

abbrev six : Bytes
six = 1 ∷ 2 ∷ 3 ∷ 4 ∷ 5 ∷ 6 ∷ []

-- The bytes 5 and 6 are at the offset of the bytes 1 and 2.
abbrev lost : Dummy
lost = record machine {
  wram_memory = some (10 ∷ 5 ∷ 6 ∷ 13 ∷ 14 ∷ 15 ∷ 16 ∷ 17 ∷ []);
  memory_to_write = some wram;
  offset_to_write = 1;
  size_to_write = 16909060;
  size_header_get = true;
  size_written = 2;
}

core_write_loses_example :
    preprocess_data
      (dummy_emulator [])
      fresh
      machine_world
      (format_command core_write_name range_args ++ block_message six)
    ≡ done (kept (written fresh 6) (record { emulator = lost; trace = [] }))
unfolding set_memory splice get_offset
core_write_loses_example =
    core_write_loses [] fresh machine_world wram eight_bytes (codes "WRAM") (codes "1") (codes "6")
      fresh-IsValid refl refl range-IsLine no_custom_write (wram_named none) eight_there 1 2 3 4
      (5 ∷ 6 ∷ []) refl six_is_six (omega arith) (omega arith) (omega arith) (omega arith)

abbrev stored : Dummy
stored = record machine { wram_memory = some (10 ∷ 1 ∷ 2 ∷ 3 ∷ 4 ∷ 5 ∷ 6 ∷ 17 ∷ []) }

core_write-pending_example :
    preprocess_data
      (dummy_emulator [])
      fresh
      with_header
      (format_command core_write_name range_args ++ block_message six)
    ≡ done
        (kept (written fresh 6) (write 7 (codes "\n\n") (record { emulator = stored; trace = [] })))
unfolding set_memory memory_of splice get_offset
core_write-pending_example =
    core_write-pending [] fresh with_header wram eight_bytes (codes "WRAM") (codes "1") (codes "6")
      fresh-IsValid refl refl range-IsLine no_custom_write (wram_named none) eight_there 1
      (2 ∷ 3 ∷ 4 ∷ 5 ∷ 6 ∷ []) refl six_is_six (omega arith) (omega arith)

dummy_core_memory_read_past_end_example :
    dummy_core_memory_read 7 (codes "WRAM" ∷ codes "3" ∷ codes "6" ∷ []) machine_world
    ≡ fault out_of_bounds_read
unfolding get_offset atoll
dummy_core_memory_read_past_end_example =
    dummy_core_memory_read_past_end 7 (codes "WRAM") (codes "3") (codes "6") [] machine_world wram
      eight_bytes (wram_named none) eight_there (omega arith) (omega arith) (omega arith)

abbrev stop_and_go : List (Command × List Bytes)
stop_and_go =
    (emulation_stop, [])
    ∷ (emulator_info, [])
    ∷ (emulation_resume, [])
    ∷ (emulation_pause, [])
    ∷ (load_game, codes "a" ∷ [])
    ∷ []

bare-IsLine :
    (name : Bytes)
    → All IsNameByte name
    → length (format_command name []) ≤ buffer_size
    → IsLine name []
bare-IsLine name n l = record {
  name_bytes = n;
  arg_bytes = tt;
  no_space = tt;
  few_args = omega arith;
  short = l;
}

load-IsLine : IsLine (spelling load_game) (codes "a" ∷ [])
load-IsLine = record {
  name_bytes = omega arith;
  arg_bytes = omega arith;
  no_space = omega arith;
  few_args = omega arith;
  short = omega arith;
}

read_all-status_example :
    (c1 : Client) × (w1 : World Dummy) × (w2 : World Dummy) × (reply : Bytes) × (read_all
        (dummy_emulator [])
        fresh
        machine_world
        (map request stop_and_go)
      ≡ done (kept c1 w1))
    × (preprocess_data (dummy_emulator []) c1 w1 (codes "EMULATION_STATUS\n")
        ≡ done (kept (answered c1 2) w2))
    × (delivered 7 w2.trace ≡ delivered 7 w1.trace ++ reply)
    × (parse_reply reply
        ≡ some ((codes "state", codes "paused") ∷ (codes "game", codes "Dummy game") ∷ []))
unfolding transitions transition
read_all-status_example =
    read_all-status [] (λ k. tt) stop_and_go [] fresh machine_world
      (
        ((λ e. cc, λ e. cc), bare-IsLine (spelling emulation_stop) (omega arith) (omega arith)),
        (
          ((λ e. cc, λ e. cc), bare-IsLine (spelling emulator_info) (omega arith) (omega arith)),
          (
            (
              (λ e. cc, λ e. cc),
              bare-IsLine (spelling emulation_resume) (omega arith) (omega arith),
            ),
            (
              (
                (λ e. cc, λ e. cc),
                bare-IsLine (spelling emulation_pause) (omega arith) (omega arith),
              ),
              (((λ e. cc, λ e. cc), load-IsLine), tt),
            ),
          ),
        ),
      )
      (bare-IsLine (spelling emulation_status) (omega arith) (omega arith)) fresh-IsValid refl

execute_command_silent_example :
    (w' : World Dummy) × (execute_command
        (dummy_emulator [])
        fresh
        (codes "EMULATION_PAUSE")
        []
        machine_world
      ≡ done (pos 0, record fresh { current_command = 3 }, w'))
    × (w'.trace ≡ [])
execute_command_silent_example =
    execute_command_silent [] emulation_pause fresh [] machine_world tt tt

read-IsLine : IsLine (spelling core_read) range_args
read-IsLine = record {
  name_bytes = omega arith;
  arg_bytes = omega arith;
  no_space = omega arith;
  few_args = omega arith;
  short = omega arith;
}

core_read-range_example :
    preprocess_data
      (dummy_emulator [])
      fresh
      machine_world
      (format_command (codes "CORE_READ") range_args)
    ≡ done (
        kept
          (answered fresh 16)
          (send_binary_block 7 (11 ∷ 12 ∷ 13 ∷ 14 ∷ 15 ∷ 16 ∷ []) machine_world))
unfolding get_offset atoll print_digits
core_read-range_example =
    core_read-range [] fresh machine_world wram eight_bytes (codes "WRAM") fresh-IsValid refl tt
      (wram_named none) eight_there 1 6 (codes "1") (codes "6") (inl refl) (inl refl) read-IsLine
      (omega arith) (omega arith) (omega arith)
