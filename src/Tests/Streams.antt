-- ===== src/Tests/Streams.antt =====
-- Runs of `preprocess_data`.
use emulator_networkaccess.Prelude.{
  ℕ, List, [], ◌∷◌, ◌++◌, Bytes, codes, inr, ◌≡◌, refl, arith, some, none,
}
use emulator_networkaccess.Protocol.{invalid_command}
use emulator_networkaccess.World.{done, fault, heap_overflow, out_of_fuel, World, Holds}
use emulator_networkaccess.Command.{split_command}
use emulator_networkaccess.Command.Format.{
  format_command, split_command-format, split_command_overflow,
}
use emulator_networkaccess.Dispatch.{unknown, resolve, find_custom, find_handler}
use emulator_networkaccess.Reply.{send_error}
use emulator_networkaccess.Framing.Parts.{kept}
use emulator_networkaccess.Framing.Loop.{preprocess_data, preprocess_loop}
use emulator_networkaccess.Framing.Feed.{feed}
use emulator_networkaccess.Framing.Bytewise.{preprocess_data-feed}
use emulator_networkaccess.Framing.Valid.{IsValid, VerdictValid, preprocess_data-IsValid}
use emulator_networkaccess.Framing.Reads.{read_all, read_all-single_bytes}
use emulator_networkaccess.Framing.Overflow.{preprocess_data_overflow}
use emulator_networkaccess.Framing.Blocks.{block_message}
use emulator_networkaccess.Framing.Exchange.{IsLine}
use emulator_networkaccess.Framing.CoreWrite.{core_write_name, written, preprocess_data-core_write}
use emulator_networkaccess.Framing.Hang.{empty_block, stuck_client, unknown_command-hangs}
use emulator_networkaccess.Tests.Fixture.{any_write, keeper, idle_world, fresh, in_block}

pub fresh-IsValid : IsValid fresh
fresh-IsValid = record {
  header_short = omega arith;
  command_room = omega arith;
  command_idle = λ _. refl;
  block_valid = refl;
}

in_block-IsValid : IsValid in_block
in_block-IsValid = record {
  header_short = omega arith;
  command_room = omega arith;
  command_idle = λ _. refl;
  block_valid = (λ h. absurd (omega arith), λ _. omega arith);
}

-- The block that is under way, complete.
preprocess_data-feed_example :
    preprocess_data keeper in_block idle_world (5 ∷ 6 ∷ 7 ∷ [])
    ≡ feed keeper in_block idle_world (5 ∷ 6 ∷ 7 ∷ [])
preprocess_data-feed_example =
    preprocess_data-feed keeper in_block idle_world 5 (6 ∷ 7 ∷ []) (omega arith)
      (λ _ _ _ _. omega arith)

preprocess_data-IsValid_example :
    Holds VerdictValid (preprocess_data keeper in_block idle_world (5 ∷ 6 ∷ []))
preprocess_data-IsValid_example =
    preprocess_data-IsValid keeper in_block idle_world 5 (6 ∷ []) in_block-IsValid
      (λ _ _ _ _. omega arith)

read_all-single_bytes_example :
    read_all keeper in_block idle_world ((5 ∷ 6 ∷ 7 ∷ []) ∷ [])
    ≡ read_all keeper in_block idle_world ((5 ∷ []) ∷ (6 ∷ []) ∷ (7 ∷ []) ∷ [])
read_all-single_bytes_example =
    read_all-single_bytes keeper ((5 ∷ 6 ∷ 7 ∷ []) ∷ []) in_block idle_world in_block-IsValid
      (λ e. cc, λ _ _ _ _. omega arith, λ c w e. tt)

-- The rest of the block, and the first byte of a command behind it.
preprocess_data_overflow_example :
    preprocess_data keeper in_block idle_world (5 ∷ 6 ∷ 7 ∷ b'E' ∷ []) ≡ fault heap_overflow
preprocess_data_overflow_example =
    preprocess_data_overflow keeper in_block idle_world (9 ∷ []) 5 (6 ∷ 7 ∷ b'E' ∷ []) refl refl
      refl (omega arith) (omega arith) (omega arith)

abbrev write_args : List Bytes
write_args = codes "WRAM" ∷ codes "$10" ∷ []

write-IsLine : IsLine core_write_name write_args
write-IsLine = record {
  name_bytes = omega arith;
  arg_bytes = omega arith;
  no_space = omega arith;
  few_args = omega arith;
  short = omega arith;
}

no_customs : find_custom 0 keeper.custom core_write_name ≡ none
unfolding find_custom
no_customs = refl

core_write_there : find_handler keeper.commands 17 ≡ some any_write
unfolding find_handler
core_write_there = refl

preprocess_data-core_write_example :
    preprocess_data keeper fresh idle_world
      (format_command core_write_name write_args ++ block_message (1 ∷ 2 ∷ []))
    ≡ done (kept (written fresh 2) (record idle_world { emulator = 1 ∷ 2 ∷ [] }))
preprocess_data-core_write_example =
    preprocess_data-core_write keeper write_args 1 (2 ∷ []) fresh idle_world any_write 0 idle_world
      fresh-IsValid refl refl write-IsLine no_customs core_write_there refl (omega arith) (inr refl)

unknown-IsLine : IsLine (codes "bFOO") []
unknown-IsLine = record {
  name_bytes = omega arith;
  arg_bytes = tt;
  no_space = tt;
  few_args = omega arith;
  short = omega arith;
}

no_such_command : resolve keeper.custom (codes "bFOO") ≡ unknown
unfolding resolve
no_such_command = refl

abbrev refused_world : World Bytes
refused_world = send_error 7 invalid_command (codes "Invalid command") idle_world

unknown_command-hangs_example :
    (preprocess_data keeper fresh idle_world (format_command (codes "bFOO") [] ++ empty_block)
      ≡ done (kept (stuck_client fresh) refused_world))
    × ((fuel b : ℕ) (bs : Bytes)
        → preprocess_loop keeper fuel (record {
          client = stuck_client fresh;
          world = refused_world;
          read_pos = 0;
          unread = b ∷ bs;
        })
          ≡ out_of_fuel)
unknown_command-hangs_example =
    unknown_command-hangs keeper (codes "FOO") [] fresh idle_world fresh-IsValid refl refl
      (λ e. absurd (omega arith)) unknown-IsLine no_such_command

split_command-format_example :
    split_command (codes "CORE_READ WRAM;$100;10\n")
    ≡ done (codes "CORE_READ", codes "WRAM" ∷ codes "$100" ∷ codes "10" ∷ [])
split_command-format_example =
    split_command-format (codes "CORE_READ") (codes "WRAM" ∷ codes "$100" ∷ codes "10" ∷ [])
      (omega arith) (omega arith) (omega arith) (omega arith)

abbrev many_args : List Bytes
many_args =
    [] ∷ [] ∷ [] ∷ [] ∷ [] ∷ [] ∷ [] ∷ [] ∷ [] ∷ [] ∷ [] ∷ [] ∷ [] ∷ [] ∷ [] ∷ [] ∷ [] ∷ [] ∷ []
    ∷ [] ∷ [] ∷ []

split_command_overflow_example :
    split_command (codes "A ;;;;;;;;;;;;;;;;;;;;\n") ≡ fault heap_overflow
split_command_overflow_example =
    split_command_overflow (codes "A") many_args (omega arith) (omega arith) tt (omega arith)
