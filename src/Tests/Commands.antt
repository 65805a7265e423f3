-- ===== src/Tests/Commands.antt =====
-- Commands by their names.
use emulator_networkaccess.Prelude.{[], ◌∷◌, Bytes, codes, pos, negsuc, ◌≡◌, ◌≢◌, refl}
use emulator_networkaccess.Protocol.{Command, emulator_info, load_game, number, invalid_command}
use emulator_networkaccess.World.{done}
use emulator_networkaccess.Reply.{send_error}
use emulator_networkaccess.Dispatch.{Emulator, execute_command, find_handler, has_prefix}
use emulator_networkaccess.Dispatch.Names.{
  spelling, execute_command-spelling, execute_command_unknown, execute_command_custom,
}
use emulator_networkaccess.Tests.Fixture.{any_write, keeper, idle_world, fresh}

abbrev with_custom : Emulator Bytes
with_custom = record keeper { custom = (codes "POKE", any_write) ∷ (codes "PEEK", any_write) ∷ [] }

execute_command-spelling_example :
    execute_command keeper fresh (spelling load_game) [] idle_world
    ≡ done (
      negsuc 0,
      record fresh { current_command = number load_game },
      send_error 7 invalid_command (codes "Invalid command or not implemented") idle_world,
    )
unfolding find_handler
execute_command-spelling_example = execute_command-spelling keeper fresh [] idle_world load_game tt

not_a_command : (k : Command) → codes "WHO" ≢ spelling k
not_a_command emulator_info h = cc
not_a_command _ h = cc

execute_command_unknown_example :
    execute_command with_custom fresh (codes "WHO") [] idle_world
    ≡ done (pos 0, fresh, send_error 7 invalid_command (codes "Invalid command") idle_world)
unfolding has_prefix
execute_command_unknown_example =
    execute_command_unknown with_custom fresh [] idle_world (codes "WHO") (refl, (refl, tt))
      not_a_command

execute_command_custom_example :
    execute_command with_custom fresh (codes "PEEK2") [] idle_world
    ≡ done (pos 0, record fresh { current_command = 129 }, idle_world)
unfolding has_prefix
execute_command_custom_example =
    execute_command_custom with_custom fresh [] idle_world ((codes "POKE", any_write) ∷ [])
      (codes "PEEK") (codes "2") any_write [] refl (refl, tt)
