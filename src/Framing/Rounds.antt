-- ===== src/Framing/Rounds.antt =====
-- One round of the loop against the byte-wise description.
use emulator_networkaccess.Prelude.{
  ℕ, ◌≤◌, true, ◌∷◌, Bytes, length, ◌≡◌, inl, inr, refl, ap, Bool-cases, ◌∙◌, arith,
}
use emulator_networkaccess.World.{done, ◌>>=◌, >>=_assoc}
use emulator_networkaccess.Client.{
  ClientState, waiting_for_command, getting_command, expecting_binary_data, getting_binary_data,
}
use emulator_networkaccess.Dispatch.{Emulator}
use emulator_networkaccess.Process.{starts_command}
use emulator_networkaccess.Framing.Parts.{
  Cursor, next, get_header, get_block, start_command, get_command, collect_command,
}
use emulator_networkaccess.Framing.Loop.{iteration}
use emulator_networkaccess.Framing.Feed.{feed, feed_in, first_byte}
use emulator_networkaccess.Framing.Phases.{
  feed_cursor, resume, collect_command-feed, get_header-feed,
}
use emulator_networkaccess.Framing.Body.{
  iteration-waiting, iteration-command, iteration-expecting, iteration-getting, begin_block,
}
use emulator_networkaccess.Framing.Progress.{Fits, Headed, get_header-Headed}
use emulator_networkaccess.Framing.BlockFeed.{then_part-resume, get_block-feed}

module _ {E : Type 0} (emu : Emulator E) where
  iteration-feed_getting :
      (s : Cursor E) (u : ℕ) (us : Bytes)
      → s.client.state ≡ getting_binary_data
      → s.unread ≡ u ∷ us
      → length s.client.binary_header ≤ 5
      → Fits s.client (length s.unread)
      → (iteration emu s >>= resume emu) ≡ feed_cursor emu s
  iteration-feed_getting s u us e n l f =
      ap (λ m. m >>= resume emu) (iteration-getting emu s e)
      ∙ then_part-resume emu (Headed s) (get_header getting_binary_data s)
          (get_block emu getting_binary_data) (get_header-Headed s u us e n l f)
          (λ t k. get_block-feed emu t k.getting k.short k.fits)
      ∙ get_header-feed emu s e

  get_command-feed :
      (s : Cursor E)
      → s.client.state ≡ getting_command
      → (get_command emu getting_command s >>= resume emu) ≡ feed_cursor emu s
  unfolding get_command
  get_command-feed s e =
      >>=_assoc (collect_command emu s.client s.world s.read_pos s.unread) (λ s'. done (next s'))
        (resume emu)
      ∙ collect_command-feed emu s.client s.world s.read_pos s.unread e

  started : Cursor E → Cursor E
  started s = record s { client = record s.client { state = getting_command } }

  feed-started :
      (s : Cursor E) (u : ℕ) (us : Bytes)
      → s.client.state ≡ waiting_for_command
      → s.unread ≡ u ∷ us
      → starts_command u ≡ true
      → feed_cursor emu (started s) ≡ feed_cursor emu s
  unfolding feed feed_in first_byte started
  feed-started s u us e n b = ground arith

  iteration-feed_waiting :
      (s : Cursor E) (u : ℕ) (us : Bytes)
      → s.client.state ≡ waiting_for_command
      → s.unread ≡ u ∷ us
      → (iteration emu s >>= resume emu) ≡ feed_cursor emu s
  iteration-feed_waiting s u us e n = elim (Bool-cases (starts_command u)) [
    | inl b ↦ rw (iteration-waiting emu s e) (
        unfold start_command started in
        ground (arith, get_command-feed (started s) refl, feed-started s u us e n b))
    | inr b ↦
        rw (iteration-waiting emu s e)
          (unfold start_command feed feed_in first_byte in ground arith)
  ]

  -- One round of the loop, and the rest of the bytes one by one.
  pub iteration-feed :
      (s : Cursor E) (u : ℕ) (us : Bytes)
      → s.unread ≡ u ∷ us
      → length s.client.binary_header ≤ 5
      → Fits s.client (length s.unread)
      → (state : ClientState) → s.client.state ≡ state
      → (iteration emu s >>= resume emu) ≡ feed_cursor emu s
  unfolding begin_block feed feed_in
  iteration-feed s u us n l f waiting_for_command e = iteration-feed_waiting s u us e n
  iteration-feed s u us n l f getting_command e =
      ap (λ m. m >>= resume emu) (iteration-command emu s e) ∙ get_command-feed s e
  iteration-feed s u us n l f expecting_binary_data e =
      rw (iteration-expecting emu s u us e n)
        (ground (arith, iteration-feed_getting (begin_block s) u us refl n))
  iteration-feed s u us n l f getting_binary_data e = iteration-feed_getting s u us e n l f
