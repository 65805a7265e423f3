-- ===== src/Framing/Lines.antt =====
-- A whole command line, whatever reads it comes in.
use emulator_networkaccess.Prelude.{
  ℕ, ◌+◌, ◌<◌, ◌≤◌, true, [], ◌∷◌, ◌++◌, Bytes, length, length-append, All, append-nil,
  append_assoc, ◌≡◌, ◌≢◌, refl, ap, ◌∙◌, arith,
}
use emulator_networkaccess.World.{World, ◌>>=◌}
use emulator_networkaccess.Client.{waiting_for_command, getting_command, Client, buffer_size}
use emulator_networkaccess.Dispatch.{Emulator}
use emulator_networkaccess.Process.{end_command, starts_command}
use emulator_networkaccess.Framing.Feed.{feed, feed_in, first_byte, command_byte}

abbrev pub NoNewline : Bytes → Type 0
NoNewline = All (λ c. c ≢ b'\n')

module _ {E : Type 0} (emu : Emulator E) where
  feed_text :
      (t rest : Bytes) (c : Client) (w : World E)
      → c.state ≡ getting_command
      → NoNewline t
      → length c.command_data + length t ≤ buffer_size
      → feed emu c w (t ++ rest) ≡ feed emu (record c { command_data = c.command_data ++ t }) w rest
  unfolding feed feed_in command_byte
  feed_text [] rest c w e n l = rw append-nil
  feed_text (b ∷ t) rest c w e n l = ground (
    arith,
    feed_text t rest (record c { command_data = c.command_data ++ (b ∷ []) }) w e n.1,
    length-append c.command_data (b ∷ []),
    append_assoc c.command_data (b ∷ []) t,
  )

  feed_newline :
      (rest : Bytes) (c : Client) (w : World E)
      → c.state ≡ getting_command
      → length c.command_data < buffer_size
      → feed emu c w (b'\n' ∷ rest) ≡ (
          end_command emu (record c { command_data = c.command_data ++ (b'\n' ∷ []) }) w >>= λ r.
          feed emu r.0 r.1 rest)
  unfolding feed feed_in command_byte
  feed_newline rest c w e l = ground arith

  feed_first :
      (b : ℕ) (rest : Bytes) (c : Client) (w : World E)
      → c.state ≡ waiting_for_command
      → starts_command b ≡ true
      → feed emu c w (b ∷ rest) ≡ feed emu (record c { state = getting_command }) w (b ∷ rest)
  unfolding feed feed_in first_byte
  feed_first b rest c w e s = ground arith

  -- A line of at most 2048 bytes, its newline included, is collected and executed once.
  pub feed_line :
      (b : ℕ) (t rest : Bytes) (c : Client) (w : World E)
      → c.state ≡ waiting_for_command
      → c.command_data ≡ []
      → starts_command b ≡ true
      → NoNewline (b ∷ t)
      → length (b ∷ t) < buffer_size
      → feed emu c w ((b ∷ t) ++ (b'\n' ∷ rest)) ≡ (
          end_command emu
            (record c { state = getting_command; command_data = (b ∷ t) ++ (b'\n' ∷ []) })
            w
          >>= λ r. feed emu r.0 r.1 rest)
  feed_line b t rest c w e d s n l =
      let c1 = record c { state = getting_command; command_data = [] } in
      feed_first b (t ++ (b'\n' ∷ rest)) c w e s
      ∙ ap
          (λ data_of.
            feed emu (record c { state = getting_command; command_data = data_of }) w
              ((b ∷ t) ++ (b'\n' ∷ rest)))
          d
      ∙ feed_text (b ∷ t) (b'\n' ∷ rest) c1 w refl n (omega arith)
      ∙ feed_newline rest (record c1 { command_data = b ∷ t }) w refl l
