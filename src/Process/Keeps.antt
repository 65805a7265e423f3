-- ===== src/Process/Keeps.antt =====
-- What the end of a command does to the client.
use emulator_networkaccess.Prelude.{ℤ, List, [], none, Bytes, ◌≡◌, arith, if◌then◌else◌}
use emulator_networkaccess.World.{World, Holds, >>=-Holds, Holds-any}
use emulator_networkaccess.Client.{
  waiting_for_command, getting_command, expecting_binary_data, Client,
}
use emulator_networkaccess.Command.{split_command}
use emulator_networkaccess.Dispatch.{Emulator, execute_command}
use emulator_networkaccess.Process.{end_command, process_command, after_command, is_binary_command}

abbrev Executed : {E : Type 0} → Client → ℤ × Client × World E → Type 0
Executed c r = r.1 ≡ record c { current_command = r.1.current_command }

-- After a command the client waits for the next one, or, if the name of the command begins with
-- `b`, for the block.
abbrev pub Commanded : {E : Type 0} → Client → Client × World E → Type 0
Commanded c r =
    (r.0.state
      ≡ (if is_binary_command c.command_data then expecting_binary_data else waiting_for_command))
    × (r.0.binary_header ≡ (if is_binary_command c.command_data then [] else c.binary_header))
    × (r.0.binary_block ≡ (if is_binary_command c.command_data then none else c.binary_block))
    × (r.0.command_data ≡ [])
    × (r.0.socket_fd ≡ c.socket_fd)

abbrev announced : Client → Client
announced c = record c {
  state = if is_binary_command c.command_data then expecting_binary_data else c.state;
}

module _ {E : Type 0} (emu : Emulator E) where
  execute_command-Executed :
      (c : Client) (cmd : Bytes) (args : List Bytes) (w : World E)
      → Holds (Executed c) (execute_command emu c cmd args w)
  unfolding execute_command
  execute_command-Executed c cmd args w = ground arith

  after_command-Commanded :
      (c : Client) (r : ℤ × Client × World E)
      → c.state ≡ getting_command
      → Executed (announced c) r
      → Commanded c (record (after_command r.1.state r.0 r.1) { command_data = [] }, r.2)
  unfolding after_command
  after_command-Commanded c r e x = ground arith

  pub end_command-Commanded :
      (c : Client) (w : World E)
      → c.state ≡ getting_command
      → Holds (Commanded c) (end_command emu c w)
  unfolding end_command process_command
  end_command-Commanded c w e =
      >>=-Holds (λ r. Commanded c (record r.0 { command_data = [] }, r.1)) (Commanded c) _ _
        (>>=-Holds (λ _. Unit {0}) _ (split_command c.command_data) _
          (Holds-any (split_command c.command_data))
          (λ line _.
            >>=-Holds (Executed (announced c)) _ _ _
              (execute_command-Executed (announced c) line.0 line.1 w)
              (λ r x. after_command-Commanded c r e x)))
        (λ r h. h)
