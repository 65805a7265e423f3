-- ===== src/Framing/Owned.antt =====
-- `preprocess_data`, the socket of its client, and what the functions of the emulator keep.
use emulator_networkaccess.Prelude.{
  ℕ, zero, suc, some, [], ◌∷◌, ◌++◌, ◌+◌, ◌*◌, ℤ, Bytes, length, Bool-cases, ◌≡◌, inl, inr, ◌∙◌,
  take, min, if◌then◌else◌, refl, arith, Option-cases, ◌==◌, ◌||◌, not,
}
use emulator_networkaccess.World.{World, Outcome, done, Holds, >>=-Holds, Holds-any}
use emulator_networkaccess.Client.{
  ClientState, waiting_for_command, getting_command, expecting_binary_data, getting_binary_data,
  Client,
}
use emulator_networkaccess.Command.{split_command}
use emulator_networkaccess.Dispatch.{Emulator, execute_command}
use emulator_networkaccess.Dispatch.Keeps.{Keeps, Called, execute_command-Called}
use emulator_networkaccess.Process.{
  end_block, process_binary_block, end_command, process_command, after_command, is_binary_command,
}
use emulator_networkaccess.Framing.Parts.{
  Verdict, kept, dropped, Cursor, Flow, next, continue_at, return_false, ◌then_part◌, expect_block,
  define_block, get_header, copy_block, get_block, start_command, collect_command, get_command,
  is_nil,
}
use emulator_networkaccess.Framing.Loop.{iteration, preprocess_loop, preprocess_data}

-- A client of a socket, and an emulator with `P`.
abbrev pub Owned : {E : Type 0} → (E → Type 0) → ℕ → Client → World E → Type 0
Owned P fd c w = (c.socket_fd ≡ fd) × P w.emulator

abbrev pub VerdictOwned : {E : Type 0} → (E → Type 0) → ℕ → Verdict E → Type 0
VerdictOwned P fd (kept c w) = Owned P fd c w
VerdictOwned P fd (dropped c w) = Owned P fd c w

abbrev FlowOwned : {E : Type 0} → (E → Type 0) → ℕ → Flow E → Type 0
FlowOwned P fd (next s) = Owned P fd s.client s.world
FlowOwned P fd (continue_at s) = Owned P fd s.client s.world
FlowOwned P fd (return_false c w) = Owned P fd c w

module _ {E : Type 0} (P : E → Type 0) (fd : ℕ) where
  then_part-FlowOwned :
      (m : Outcome (Flow E)) (f : Cursor E → Outcome (Flow E))
      → Holds (FlowOwned P fd) m
      → ((s : Cursor E) → Owned P fd s.client s.world → Holds (FlowOwned P fd) (f s))
      → Holds (FlowOwned P fd) (m then_part f)
  then_part-FlowOwned m f h g = >>=-Holds (FlowOwned P fd) (FlowOwned P fd) m _ h go
    where
      go : (r : Flow E) → FlowOwned P fd r → Holds (FlowOwned P fd) (done r then_part f)
      go (next s) p = g s p
      go (continue_at s) p = p
      go (return_false c w) p = p

  expect_block-FlowOwned :
      (state : ClientState) (s : Cursor E)
      → Owned P fd s.client s.world
      → Holds (FlowOwned P fd) (expect_block state s)
  unfolding expect_block
  expect_block-FlowOwned expecting_binary_data s v = ground arith
  expect_block-FlowOwned _ s v = v

  get_header-FlowOwned :
      (state : ClientState) (s : Cursor E)
      → Owned P fd s.client s.world
      → Holds (FlowOwned P fd) (get_header state s)
  unfolding get_header define_block
  get_header-FlowOwned getting_binary_data s v = ground arith
  get_header-FlowOwned _ s v = v

  start_command-FlowOwned :
      (state : ClientState) (s : Cursor E)
      → Owned P fd s.client s.world
      → Holds (FlowOwned P fd) (start_command state s)
  unfolding start_command
  start_command-FlowOwned waiting_for_command s v = ground arith
  start_command-FlowOwned _ s v = v

module _ {E : Type 0} (P : E → Type 0) (emu : Emulator E) (keeps : Keeps P emu) (fd : ℕ) where
  abbrev Both : Client × World E → Type 0
  Both r = Owned P fd r.0 r.1

  process_binary_block-Owned :
      (c : Client) (w : World E) → Owned P fd c w → Holds Both (process_binary_block emu c w)
  unfolding process_binary_block
  process_binary_block-Owned c w v = elim (Option-cases c.binary_block) [
    | inl null ↦ ground arith
    | inr (block, there) ↦ ground (arith, keeps.write_keeps c.socket_fd block w)
  ]

  end_block-Owned : (c : Client) (w : World E) → Owned P fd c w → Holds Both (end_block emu c w)
  unfolding end_block
  end_block-Owned c w v = ground (arith, process_binary_block-Owned c w v)

  after_command-socket_fd :
      (state : ClientState) (k : ℤ) (c : Client) → (after_command state k c).socket_fd ≡ c.socket_fd
  unfolding after_command
  after_command-socket_fd expecting_binary_data k c = refl
  after_command-socket_fd _ k c = refl

  process_command-Owned :
      (c : Client) (w : World E) → Owned P fd c w → Holds Both (process_command emu c w)
  unfolding process_command
  process_command-Owned c w v =
      >>=-Holds (λ _. Unit {0}) Both (split_command c.command_data) _
        (Holds-any (split_command c.command_data))
        (λ line _.
          >>=-Holds (Called P emu keeps c) Both (execute_command emu c line.0 line.1 w) _
            (execute_command-Called P emu keeps c line.0 line.1 w v.1)
            (λ r x. (after_command-socket_fd r.1.state r.0 r.1 ∙ x.0 ∙ v.0, x.1)))

  end_command-Owned : (c : Client) (w : World E) → Owned P fd c w → Holds Both (end_command emu c w)
  unfolding end_command
  end_command-Owned c w v =
      >>=-Holds Both Both
        (process_command emu
          (record c {
            state = if is_binary_command c.command_data then expecting_binary_data else c.state;
          })
          w)
        _
        (process_command-Owned
          (record c {
            state = if is_binary_command c.command_data then expecting_binary_data else c.state;
          })
          w v)
        (λ r q. q)

  copy_block-FlowOwned :
      (s : Cursor E) (block : Bytes)
      → Owned P fd s.client s.world
      → Holds (FlowOwned P fd) (copy_block emu s block)
  unfolding copy_block
  copy_block-FlowOwned s block v =
      let block' =
        block ++ take (min (length s.unread) s.client.binary_block_defined_size) s.unread in
      ground (arith, end_block-Owned (record s.client { binary_block = some block' }) s.world v)

  get_block-FlowOwned :
      (state : ClientState) (s : Cursor E)
      → Owned P fd s.client s.world
      → Holds (FlowOwned P fd) (get_block emu state s)
  unfolding get_block
  get_block-FlowOwned getting_binary_data s v = elim (Option-cases s.client.binary_block) [
    | inl null ↦ ground arith
    | inr (block, there) ↦ ground (arith, copy_block-FlowOwned s block v)
  ]
  get_block-FlowOwned _ s v = v

  collect_command-Owned :
      (c : Client) (w : World E) (i : ℕ) (bs : Bytes)
      → Owned P fd c w
      → Holds (λ s. Owned P fd s.client s.world) (collect_command emu c w i bs)
  unfolding collect_command
  collect_command-Owned c w i [] v = v
  collect_command-Owned c w i (b ∷ bs) v =
      let c' = record c { command_data = c.command_data ++ (b ∷ []) } in
      ground (arith, end_command-Owned c' w v, collect_command-Owned c' w (i + 1) bs v)

  get_command-FlowOwned :
      (state : ClientState) (s : Cursor E)
      → Owned P fd s.client s.world
      → Holds (FlowOwned P fd) (get_command emu state s)
  unfolding get_command
  get_command-FlowOwned getting_command s v =
      >>=-Holds (λ t. Owned P fd t.client t.world) (FlowOwned P fd) _ _
        (collect_command-Owned s.client s.world s.read_pos s.unread v) (λ t p. p)
  get_command-FlowOwned _ s v = v

  iteration-FlowOwned :
      (s : Cursor E) → Owned P fd s.client s.world → Holds (FlowOwned P fd) (iteration emu s)
  unfolding iteration
  iteration-FlowOwned s v =
      then_part-FlowOwned P fd _ _
        (then_part-FlowOwned P fd _ _
          (then_part-FlowOwned P fd _ _
            (then_part-FlowOwned P fd _ _ (expect_block-FlowOwned P fd s.client.state s v)
              (λ t. get_header-FlowOwned P fd t.client.state t))
            (λ t. get_block-FlowOwned t.client.state t))
          (λ t. start_command-FlowOwned P fd t.client.state t))
        (λ t. get_command-FlowOwned t.client.state t)

  preprocess_loop-Owned :
      (fuel : ℕ) (s : Cursor E)
      → Owned P fd s.client s.world
      → Holds (VerdictOwned P fd) (preprocess_loop emu fuel s)
  unfolding preprocess_loop
  preprocess_loop-Owned zero s v = tt
  preprocess_loop-Owned (suc fuel) s v =
      elim (Bool-cases (s.read_pos == 0 || not (is_nil s.unread))) [
        | inl more ↦
            rw (more, Holds)
              (>>=-Holds (FlowOwned P fd) (VerdictOwned P fd) (iteration emu s) _
                (iteration-FlowOwned s v) (go (preprocess_loop-Owned fuel)))
        | inr over ↦ rw (over, Holds) v
      ]
    where
      go :
          ((t : Cursor E)
            → Owned P fd t.client t.world
            → Holds (VerdictOwned P fd) (preprocess_loop emu fuel t))
          → (r : Flow E) → FlowOwned P fd r
          → Holds (VerdictOwned P fd) (elim r [
            | next s' ↦ preprocess_loop emu fuel s'
            | continue_at s' ↦ preprocess_loop emu fuel s'
            | return_false c w ↦ done (dropped c w)
          ])
      go ih (next s') p = ih s' p
      go ih (continue_at s') p = ih s' p
      go ih (return_false c w) p = p

  -- A call of `preprocess_data` changes neither the socket of its client nor what every function of
  -- the emulator keeps.
  pub preprocess_data-Owned :
      (c : Client) (w : World E) (bs : Bytes)
      → Owned P fd c w
      → Holds (VerdictOwned P fd) (preprocess_data emu c w bs)
  unfolding preprocess_data
  preprocess_data-Owned c w bs v =
      preprocess_loop-Owned (2 * length bs + 2)
        (record { client = c; world = w; read_pos = 0; unread = bs }) v
