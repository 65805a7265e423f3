-- ===== src/Protocol.antt =====
-- c_includes/emulator_network_access_defines.h: the commands, the kinds of error, and their names on
-- the wire. A name is the identifier that the macro of the header turns into text.
use emulator_networkaccess.Prelude.{ℕ, List, [], ◌∷◌, Bytes, codes}

-- `emulator_network_access_command`, but for its last member, `CUSTOM`.
pub data Command : Type 0 where
  emulator_info emulation_status emulation_pause emulation_stop : Command
  emulation_reset emulation_resume emulation_reload my_name_is : Command
  load_game game_info cores_list core_info core_current_info : Command
  load_core core_memories core_read core_write : Command
  debug_break debug_continue load_state save_state : Command

-- The values of the enumeration. `core_write` is `bCORE_WRITE`.
abbrev pub number : Command → ℕ
number emulator_info = 1
number emulation_status = 2
number emulation_pause = 3
number emulation_stop = 4
number emulation_reset = 5
number emulation_resume = 6
number emulation_reload = 7
number my_name_is = 8
number load_game = 9
number game_info = 10
number cores_list = 11
number core_info = 12
number core_current_info = 13
number load_core = 14
number core_memories = 15
number core_read = 16
number core_write = 17
number debug_break = 18
number debug_continue = 19
number load_state = 20
number save_state = 21

-- `CUSTOM`, the number of the first custom command.
abbrev pub custom_base : ℕ
custom_base = 128

abbrev pub starting_port : ℕ
starting_port = 0xBEEF

-- An entry of `emulator_network_access_command_strings`.
pub record CommandString : Type 0 where
  pub command : ℕ
  pub string : Bytes

abbrev pub entry : Command → Bytes → CommandString
entry c s = record { command = number c; string = s }

abbrev pub command_strings : List CommandString
command_strings =
    entry emulator_info (codes "EMULATOR_INFO")
    ∷ entry emulation_status (codes "EMULATION_STATUS")
    ∷ entry emulation_pause (codes "EMULATION_PAUSE")
    ∷ entry emulation_stop (codes "EMULATION_STOP")
    ∷ entry emulation_reset (codes "EMULATION_RESET")
    ∷ entry emulation_resume (codes "EMULATION_RESUME")
    ∷ entry emulation_reload (codes "EMULATION_RELOAD")
    ∷ entry my_name_is (codes "MY_NAME_IS")
    ∷ entry load_game (codes "LOAD_GAME")
    ∷ entry game_info (codes "GAME_INFO")
    ∷ entry cores_list (codes "CORES_LIST")
    ∷ entry core_info (codes "CORE_INFO")
    ∷ entry core_current_info (codes "CORE_CURRENT_INFO")
    ∷ entry load_core (codes "LOAD_CORE")
    ∷ entry core_memories (codes "CORE_MEMORIES")
    ∷ entry core_read (codes "CORE_READ")
    ∷ entry core_write (codes "bCORE_WRITE")
    ∷ entry debug_break (codes "DEBUG_BREAK")
    ∷ entry debug_continue (codes "DEBUG_CONTINUE")
    ∷ entry load_state (codes "LOAD_STATE")
    ∷ entry save_state (codes "SAVE_STATE")
    ∷ []

-- `emulator_network_access_error_type`
pub data ErrorType : Type 0 where
  protocol_error invalid_command invalid_argument command_error not_allowed : ErrorType

-- `emulator_network_access_error_type_strings`, searched by the type.
abbrev pub error_type_string : ErrorType → Bytes
error_type_string protocol_error = codes "protocol_error"
error_type_string invalid_command = codes "invalid_command"
error_type_string invalid_argument = codes "invalid_argument"
error_type_string command_error = codes "command_error"
error_type_string not_allowed = codes "not_allowed"
