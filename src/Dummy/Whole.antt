-- ===== src/Dummy/Whole.antt =====
-- `main` of dummy.c as a whole: the files that it reads, and its rounds.
use emulator_networkaccess.Prelude.{
  ℕ, ◌<◌, ◌^◌, ◌++◌, ◌∙◌, ap, sym, append-nil, codes, length, Option, none, some, List, [], ◌∷◌,
  Bytes, All, ◌≡◌, refl,
}
use mathlib.Core.Option
use emulator_networkaccess.World.{done, ◌>>=◌, Holds, >>=-Holds}
use emulator_networkaccess.Dispatch.{Handler}
use emulator_networkaccess.Dispatch.Keeps.{Keeping}
use emulator_networkaccess.Poll.Kept.{CallbacksKeep}
use emulator_networkaccess.Serve.{Host, Turn, Next, generic_poll_server_start}
use emulator_networkaccess.Serve.Rounds.{NextMatched, NotZero, generic_poll_server_start-Matched}
use emulator_networkaccess.Dummy.Memory.{Dummy, set_memory}
use emulator_networkaccess.Dummy.Loading.{Mallocs, read_block-whole}
use emulator_networkaccess.Dummy.Layout.{
  Section, lay_out_all, last_named, loaded, snes9x_152_savestate_get_ram_wram-lay_out_all,
}
use emulator_networkaccess.Dummy.Machine.{dummy_emulator}
use emulator_networkaccess.Dummy.Savestate.{Files, read_block, prep_memory}
use emulator_networkaccess.Dummy.Program.{static_dummy, static_server, main_callbacks, main}
use emulator_networkaccess.Dummy.Sizes.{Sizes, HasSizes, dummy_emulator-Keeps}

main_callbacks-CallbacksKeep : (P : Dummy → Type 0) → CallbacksKeep P main_callbacks
unfolding main_callbacks
main_callbacks-CallbacksKeep P = record {
  add_client_keeps = tt;
  server_started_keeps = λ port w p. p;
  remove_client_keeps = tt;
  after_poll_keeps = tt;
}

-- What `main` comes to has `P`, unless it has left by `exit(1)`.
abbrev pub ProgramHas : (Dummy → Type 0) → Option (Next Dummy) → Type 0
ProgramHas P none = Unit
ProgramHas P (some next) = NextMatched P next

-- The state that `main` serves when its files are read.
abbrev from_files : Bytes → Bytes → List Section → Dummy
from_files rom_path rom ss = loaded ss (record (static_dummy rom_path) { rom_memory = some rom })

-- The sizes of the memories in the files.
abbrev sizes_of_files : Bytes → List Section → Sizes
sizes_of_files rom ss = (
  Option.map length (last_named (codes "RAM") ss none),
  Option.map length (last_named (codes "SRA") ss none),
  some (length rom),
)

module _ (malloc : ℕ → Option Bytes) (mallocs : Mallocs malloc) where
  prep_memory-lay_out_all :
      (d : Dummy) (rom head : Bytes) (ss : List Section) (files : Files)
      → files ≡ record {
        st_size = some (length rom);
        romfile = some rom;
        savestate = some (head ++ lay_out_all ss);
      }
      → length head ≡ 14
      → All (λ s. length s.bytes < 10 ^ 6) ss
      → prep_memory malloc files d ≡ done (some (loaded ss (record d { rom_memory = some rom })))
  unfolding prep_memory set_memory
  prep_memory-lay_out_all d rom head ss files are n h =
      rw
        (
          are,
          ap (read_block malloc (length rom)) (sym (append-nil rom))
              ∙ read_block-whole malloc mallocs rom [],
        )
        (snes9x_152_savestate_get_ram_wram-lay_out_all malloc mallocs head ss
          (record d { rom_memory = some rom }) n h)

  -- If the ROM has the size that stat tells, the savestate is 14 bytes and sections of less than 10^6
  -- bytes, and malloc finds memory, main serves the ROM and the bytes of the last sections RAM and SRA.
  -- However the operating system answers, with any bytes from the clients, a run that is neither a
  -- fault nor an endless loop keeps the memories at the sizes of that ROM and these two sections, and
  -- the entries of poll_fds the sockets of its five slots, if the custom functions keep those sizes and
  -- accept does not answer 0.
  pub main-sizes :
      (custom : List (Bytes × Handler Dummy)) (files : Bytes → Bytes → Files) (host : Host)
      (ts : List Turn) (program rom_path state_path rom head : Bytes) (ss : List Section)
      → files rom_path state_path ≡ record {
        st_size = some (length rom);
        romfile = some rom;
        savestate = some (head ++ lay_out_all ss);
      }
      → length head ≡ 14
      → All (λ s. length s.bytes < 10 ^ 6) ss
      → All (λ e. Keeping (HasSizes (sizes_of_files rom ss)) e.1) custom
      → All (λ t. NotZero t.polled) ts
      → (main custom malloc files host ts (program ∷ rom_path ∷ state_path ∷ []) ≡ (
          generic_poll_server_start
            (dummy_emulator custom)
            main_callbacks
            host
            ts
            (static_server (from_files rom_path rom ss))
          >>= λ next. done (some next)))
        × Holds
            (ProgramHas (HasSizes (sizes_of_files rom ss)))
            (main custom malloc files host ts (program ∷ rom_path ∷ state_path ∷ []))
  unfolding main
  main-sizes custom files host ts program rom_path state_path rom head ss are n small h nz =
      let d = from_files rom_path rom ss in
      let z = sizes_of_files rom ss in
      let served =
        >>=-Holds (NextMatched (HasSizes z)) (ProgramHas (HasSizes z))
          (generic_poll_server_start (dummy_emulator custom) main_callbacks host ts
            (static_server d))
          (λ next. done (some next))
          (generic_poll_server_start-Matched (HasSizes z) (dummy_emulator custom)
            (dummy_emulator-Keeps z custom h) main_callbacks
            (main_callbacks-CallbacksKeep (HasSizes z)) host ts (static_server d) nz (refl, refl))
          (λ next p. p) in
      let prepared =
        prep_memory-lay_out_all (static_dummy rom_path) rom head ss (files rom_path state_path) are
          n small in
      (rw (prepared) refl, rw (prepared, Holds) served)
