-- ===== src/Dummy/Commands.antt =====
-- dummy/Dummy Emulator/dummy.c: the functions of the commands.
use emulator_networkaccess.Prelude.{
  ℕ, ◌%◌, ◌^◌, pos, Option, none, some, List, [], ◌∷◌, Bytes, codes, length, take, ◌==◌,
  if◌then◌else◌, get_elem?,
}
use emulator_networkaccess.World.{
  Outcome, done, fault, null_pointer, uninitialized_read, World, write, ◌>>=◌,
}
use emulator_networkaccess.Dispatch.{Handler}
use emulator_networkaccess.Offset.{get_offset, atoll}
use emulator_networkaccess.Reply.{send_full_hash_reply, network_order}
use emulator_networkaccess.Dummy.Memory.{
  Status, running, paused, stopped, Dummy, find_area, bytes_at, hex_string,
}

-- `args[0]`: NULL where the command has no argument.
unfoldable pub first_arg : List Bytes → Outcome Bytes
first_arg [] = fault null_pointer
first_arg (a ∷ args) = done a

-- `args[i]` for another `i`: nothing was written there where the command has fewer arguments.
unfoldable pub arg_at : ℕ → List Bytes → Outcome Bytes
arg_at i args = elim (get_elem? args i) [ none ↦ fault uninitialized_read | some a ↦ done a ]

-- `atoi`, converted to `uint32_t`
abbrev pub atoi : Bytes → ℕ
atoi s = atoll s % 2 ^ 32

unfoldable pub dummy_emu_info : Handler Dummy
unfolding send_full_hash_reply
dummy_emu_info socket args w = done (
  pos 0,
  send_full_hash_reply socket
      ((codes "name", codes "Dummy emulator")
        ∷ (codes "version", codes "0.1")
        ∷ (codes "id", codes "I am dumb")
        ∷ (codes "nwa_version", codes "1.0")
        ∷ (
          codes "commands",
          codes
              "EMULATOR_INFO,EMULATION_STATUS,GAME_INFO,CORES_LIST,CORE_CURRENT_INFO,CORE_INFO,EMULATION_PAUSE,EMULATION_RESUME,EMULATION_RESET,EMULATION_STOP",
        )
        ∷ [])
      w,
)

-- The line that one of the three tests writes.
abbrev pub state_line : Status → Bytes
state_line running = codes "state:running"
state_line paused = codes "state:paused"
state_line stopped = codes "state:stopped"

unfoldable pub dummy_emu_status : Handler Dummy
dummy_emu_status socket args w =
    let w1 = write socket (codes "\n") w in
    let w2 = write socket (state_line w.emulator.dummy_state) w1 in
    done (pos 0, write socket (codes "\ngame:Dummy game\n\n") w2)

abbrev pub set_state : Status → World Dummy → World Dummy
set_state s w = record w { emulator = record w.emulator { dummy_state = s } }

unfoldable pub dummy_emu_pause : Handler Dummy
dummy_emu_pause socket args w = done (pos 0, set_state paused w)

unfoldable pub dummy_emu_stop : Handler Dummy
dummy_emu_stop socket args w = done (pos 0, set_state stopped w)

unfoldable pub dummy_emu_reset : Handler Dummy
dummy_emu_reset socket args w = done (pos 0, w)

unfoldable pub dummy_emu_resume : Handler Dummy
dummy_emu_resume socket args w = done (pos 0, set_state running w)

unfoldable pub dummy_emu_reload : Handler Dummy
dummy_emu_reload socket args w = done (pos 0, w)

unfoldable pub dummy_load_game : Handler Dummy
dummy_load_game socket args w = done (pos 0, w)

unfoldable pub dummy_game_info : Handler Dummy
unfolding send_full_hash_reply
dummy_game_info socket args w = done (
  pos 0,
  send_full_hash_reply socket
      ((codes "name", codes "Dummy Game")
        ∷ (codes "file", w.emulator.rom_path)
        ∷ (codes "region", codes "EU")
        ∷ [])
      w,
)

unfoldable pub dummy_cores_list : Handler Dummy
unfolding send_full_hash_reply
dummy_cores_list socket args w = done (
  pos 0,
  send_full_hash_reply socket
      ((codes "platform", codes "SNES")
        ∷ (codes "name", codes "dummy core")
        ∷ (codes "version", codes "0.1")
        ∷ [])
      w,
)

unfoldable pub dummy_core_info : Handler Dummy
unfolding dummy_cores_list
dummy_core_info socket args w = dummy_cores_list socket args w

unfoldable pub dummy_core_current_info : Handler Dummy
unfolding dummy_cores_list
dummy_core_current_info socket args w = dummy_cores_list socket args w

unfoldable pub dummy_core_load : Handler Dummy
dummy_core_load socket args w = done (pos 0, w)

unfoldable pub dummy_core_memories : Handler Dummy
unfolding send_full_hash_reply
dummy_core_memories socket args w = done (
  pos 0,
  send_full_hash_reply socket
      ((codes "name", codes "WRAM")
        ∷ (codes "access", codes "rw")
        ∷ (codes "name", codes "SRAM")
        ∷ (codes "access", codes "rw")
        ∷ (codes "name", codes "CARTROM")
        ∷ (codes "access", codes "rw")
        ∷ [])
      w,
)

-- The bytes that `write` finds behind a pointer, after `hex_string` has read them.
abbrev pub read_bytes : Option Bytes → ℕ → Bytes
read_bytes none size = []
read_bytes (some bytes) size = take size bytes

unfoldable pub dummy_core_memory_read : Handler Dummy
unfolding arg_at first_arg get_offset atoll find_area bytes_at hex_string network_order
dummy_core_memory_read socket args w = do
  a1 ← arg_at 1 args
  a2 ← arg_at 2 args
  name ← first_arg args
  let size = atoi a2
  let at = bytes_at (find_area none name) (get_offset a1) w.emulator
  let w1 = write socket (0 ∷ []) w
  let w2 = write socket (network_order size) w1
  _ ← hex_string at size
  done (pos 0, write socket (read_bytes at size) w2)

unfoldable pub dummy_core_memory_write : Handler Dummy
unfolding arg_at first_arg get_offset atoll find_area
dummy_core_memory_write socket args w = do
  name ← first_arg args
  let area = find_area w.emulator.memory_to_write name
  a1 ← arg_at 1 args
  size ← (if length args == 3 then (arg_at 2 args >>= λ a. done (atoi a)) else done 0)
  done (
    pos size,
    record w {
      emulator = record w.emulator {
        memory_to_write = area;
        offset_to_write = get_offset a1;
        size_to_write = size;
        size_written = 0;
      };
    },
  )

unfoldable pub dummy_np : Handler Dummy
dummy_np socket args w = done (pos 0, w)

unfoldable pub dummy_load_state : Handler Dummy
dummy_load_state socket args w = done (pos 0, w)

unfoldable pub dummy_save_state : Handler Dummy
dummy_save_state socket args w = done (pos 0, w)
