-- ===== src/Tests/Savestates.antt =====
-- Savestates, read, and the whole program.
use emulator_networkaccess.Prelude.{
  ℕ, zero, suc, Option, none, some, List, [], ◌∷◌, ◌++◌, Bytes, codes, length, strcmp_zero, true,
  false, ◌≡◌, refl, ap, arith,
}
use emulator_networkaccess.World.{done, ◌>>=◌, Holds}
use emulator_networkaccess.Serve.{generic_poll_server_start, Host, Turn, Revents, ready, failed}
use emulator_networkaccess.Dummy.Memory.{Dummy}
use emulator_networkaccess.Dummy.Savestate.{Files, snes9x_152_savestate_get_ram_wram}
use emulator_networkaccess.Dummy.Loading.{Mallocs, snes9x_152_savestate_get_ram_wram_ends}
use emulator_networkaccess.Dummy.Layout.{
  Section, lay_out_all, last_named, snes9x_152_savestate_get_ram_wram-lay_out_all,
}
use emulator_networkaccess.Dummy.Program.{static_dummy, static_server, main_callbacks, main}
use emulator_networkaccess.Dummy.Machine.{dummy_emulator}
use emulator_networkaccess.Dummy.Sizes.{HasSizes}
use emulator_networkaccess.Dummy.Whole.{ProgramHas, main-sizes}

abbrev zeros : ℕ → Bytes
zeros zero = []
zeros (suc n) = 0 ∷ zeros n

length-zeros : (n : ℕ) → length (zeros n) ≡ n
length-zeros zero = refl
length-zeros (suc n) = ap suc (length-zeros n)

abbrev always : ℕ → Option Bytes
always n = some (zeros n)

always-Mallocs : Mallocs always
always-Mallocs n = (zeros n, refl, length-zeros n)

abbrev ram : Bytes → Section
ram bytes = record { first = b'R'; second = b'A'; third = b'M'; bytes = bytes }

abbrev sra : Bytes → Section
sra bytes = record { first = b'S'; second = b'R'; third = b'A'; bytes = bytes }

abbrev cpu : Section
cpu = record { first = b'C'; second = b'P'; third = b'U'; bytes = codes "RAM:000001:" }

abbrev sections : List Section
sections = ram (1 ∷ []) ∷ cpu ∷ sra (7 ∷ 8 ∷ []) ∷ ram (2 ∷ 3 ∷ []) ∷ []

abbrev head : Bytes
head = codes "#!s9xsnp:0006\n"

abbrev game : Bytes
game = codes "game.sfc"

snes9x_152_savestate_get_ram_wram-lay_out_all_example :
    snes9x_152_savestate_get_ram_wram always
      (some (head ++ lay_out_all sections))
      (static_dummy game)
    ≡ done (
        some (record (static_dummy game) {
          wram_memory = some (2 ∷ 3 ∷ []);
          sram_memory = some (7 ∷ 8 ∷ []);
        }))
unfolding last_named strcmp_zero
snes9x_152_savestate_get_ram_wram-lay_out_all_example =
    snes9x_152_savestate_get_ram_wram-lay_out_all always always-Mallocs head sections
      (static_dummy game) refl (omega arith, (omega arith, (omega arith, (omega arith, tt))))

-- A file that is no savestate.
snes9x_152_savestate_get_ram_wram_ends_example :
    (d : Dummy) × (snes9x_152_savestate_get_ram_wram always
        (some (head ++ codes "RAM:-00001:RAM"))
        (static_dummy game)
      ≡ done (some d))
snes9x_152_savestate_get_ram_wram_ends_example =
    snes9x_152_savestate_get_ram_wram_ends always always-Mallocs (head ++ codes "RAM:-00001:RAM")
      (static_dummy game)

abbrev files : Bytes → Bytes → Files
files rom_path state_path = record {
  st_size = some 3;
  romfile = some (40 ∷ 41 ∷ 42 ∷ []);
  savestate = some (head ++ lay_out_all sections);
}

abbrev prepared : Dummy
prepared = record (static_dummy game) {
  rom_memory = some (40 ∷ 41 ∷ 42 ∷ []);
  wram_memory = some (2 ∷ 3 ∷ []);
  sram_memory = some (7 ∷ 8 ∷ []);
}

abbrev willing : Host
willing = record {
  socket = some 3;
  setsockopt = true;
  port_range = none;
  bind = λ port. true;
  listen = true;
}

abbrev quiet : ℕ → Revents
quiet fd = record { pollin = false; pollerr = false; pollhup = false }

abbrev talking : ℕ → Revents
talking fd = record { pollin = true; pollerr = false; pollhup = false }

-- A client connects, sends a write in two parts, and the poll is interrupted.
abbrev turns : List Turn
turns =
    record { stop = false; polled = ready (some (some 7)) quiet; read = λ fd. [] }
    ∷ record {
      stop = false;
      polled = ready none talking;
      read = λ fd. codes "bCORE_WRITE WRAM;0;2\n";
    }
    ∷ record {
      stop = false;
      polled = ready none talking;
      read = λ fd. 0 ∷ 0 ∷ 0 ∷ 0 ∷ 2 ∷ 8 ∷ 9 ∷ [];
    }
    ∷ record { stop = false; polled = failed true; read = λ fd. [] }
    ∷ []

main-sizes_example :
    (main [] always files willing turns (codes "dummyserver" ∷ game ∷ codes "state" ∷ []) ≡ (
      generic_poll_server_start
        (dummy_emulator [])
        main_callbacks
        willing
        turns
        (static_server prepared)
      >>= λ next. done (some next)))
    × Holds
        (ProgramHas (HasSizes (some 2, some 2, some 3)))
        (main [] always files willing turns (codes "dummyserver" ∷ game ∷ codes "state" ∷ []))
unfolding last_named strcmp_zero
main-sizes_example =
    main-sizes always always-Mallocs [] files willing turns (codes "dummyserver") game
      (codes "state") (40 ∷ 41 ∷ 42 ∷ []) head sections refl refl
      (omega arith, (omega arith, (omega arith, (omega arith, tt)))) tt
      (λ e. cc, (tt, (tt, (tt, tt))))
