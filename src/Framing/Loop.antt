-- ===== src/Framing/Loop.antt =====
-- generic poll server/generic_poll_server.c, the loop of `preprocess_data`.
use emulator_networkaccess.Prelude.{
  ℕ, zero, suc, ◌+◌, ◌*◌, true, false, not, ◌||◌, Bytes, ◌==◌, length,
}
use emulator_networkaccess.World.{Outcome, done, out_of_fuel, World, ◌>>=◌}
use emulator_networkaccess.Client.{Client}
use emulator_networkaccess.Dispatch.{Emulator}
use emulator_networkaccess.Framing.Parts.{
  Verdict, kept, dropped, Cursor, Flow, next, continue_at, return_false, ◌then_part◌, expect_block,
  get_header, get_block, start_command, get_command, is_nil,
}

module _ {E : Type 0} (emu : Emulator E) where
  -- The body of the loop. Each part tests the state that the one before it left.
  unfoldable pub iteration : Cursor E → Outcome (Flow E)
  unfolding expect_block get_header get_block start_command get_command
  iteration s =
      expect_block s.client.state s
      then_part (λ s. get_header s.client.state s)
      then_part (λ s. get_block emu s.client.state s)
      then_part (λ s. start_command s.client.state s)
      then_part (λ s. get_command emu s.client.state s)

  unfoldable pub preprocess_loop : ℕ → Cursor E → Outcome (Verdict E)
  unfolding iteration
  preprocess_loop zero s = out_of_fuel
  preprocess_loop (suc fuel) s = elim (s.read_pos == 0 || not (is_nil s.unread)) [
    | false ↦ done (kept s.client s.world)
    | true ↦ iteration s >>= λ flow. elim flow [
      | next s' ↦ preprocess_loop fuel s'
      | continue_at s' ↦ preprocess_loop fuel s'
      | return_false c w ↦ done (dropped c w)
    ]
  ]

  -- `preprocess_data` on the bytes of one `read`.
  unfoldable pub preprocess_data : Client → World E → Bytes → Outcome (Verdict E)
  unfolding preprocess_loop
  preprocess_data c w readed_data =
      preprocess_loop (2 * length readed_data + 2)
        (record { client = c; world = w; read_pos = 0; unread = readed_data })
