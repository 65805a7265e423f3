-- ===== src/Dummy/Sizes.antt =====
-- The sizes of the memories of dummy.c, over its commands and blocks.
use emulator_networkaccess.Prelude.{
  ℕ, ◌+◌, ◌%◌, ◌^◌, false, Option, none, some, List, Bytes, All, length, take, length-take, ltb,
  ◌==◌, Bool-cases, Option-cases, if◌then◌else◌, ◌≡◌, inl, inr, refl, ap, sym, ◌∙◌, arith,
}
use mathlib.Core.Option
use emulator_networkaccess.World.{done, World, ◌>>=◌, Holds, >>=-Holds, >>=-Holds_any}
use emulator_networkaccess.Dispatch.{Handler}
use emulator_networkaccess.Dispatch.Keeps.{Keeping, Keeps}
use emulator_networkaccess.Offset.{get_offset}
use emulator_networkaccess.Dummy.Memory.{
  Area, wram, sram, cartrom, Dummy, memory_of, set_memory, find_area, bytes_at, hex_string,
}
use emulator_networkaccess.Dummy.Commands.{
  first_arg, arg_at, atoi, dummy_emu_info, dummy_emu_status, dummy_emu_pause, dummy_emu_stop,
  dummy_emu_reset, dummy_emu_resume, dummy_emu_reload, dummy_load_game, dummy_game_info,
  dummy_cores_list, dummy_core_info, dummy_core_current_info, dummy_core_load, dummy_core_memories,
  dummy_core_memory_read, dummy_core_memory_write, dummy_np, dummy_load_state, dummy_save_state,
}
use emulator_networkaccess.Dummy.WriteBlock.{
  size_header, take_header, splice, copy_bytes, end_write, write_to_memory,
}
use emulator_networkaccess.Dummy.Machine.{dummy_emulator}
use emulator_networkaccess.Dummy.Writing.{length-splice}

-- The sizes of the memories that there are.
abbrev pub Sizes : Type 0
Sizes = Option ℕ × Option ℕ × Option ℕ

abbrev pub sizes : Dummy → Sizes
sizes d = (
  Option.map length d.wram_memory,
  Option.map length d.sram_memory,
  Option.map length d.rom_memory,
)

abbrev pub HasSizes : Sizes → Dummy → Type 0
HasSizes z d = sizes d ≡ z

set_memory-sizes :
    (area : Area) (memory bytes : Bytes) (d : Dummy)
    → memory_of area d ≡ some memory
    → length bytes ≡ length memory
    → sizes (set_memory area bytes d) ≡ sizes d
unfolding set_memory memory_of
set_memory-sizes wram memory bytes d m l =
    ap (λ o. (o, Option.map length d.sram_memory, Option.map length d.rom_memory))
      (ap some l ∙ sym (ap (Option.map length) m))
set_memory-sizes sram memory bytes d m l =
    ap (λ o. (Option.map length d.wram_memory, o, Option.map length d.rom_memory))
      (ap some l ∙ sym (ap (Option.map length) m))
set_memory-sizes cartrom memory bytes d m l =
    ap (λ o. (Option.map length d.wram_memory, Option.map length d.sram_memory, o))
      (ap some l ∙ sym (ap (Option.map length) m))

fits :
    (bytes : Bytes) (size : ℕ) (memory : Bytes) (d : Dummy)
    → ltb (length bytes) size ≡ false
    → ltb (length memory) (d.offset_to_write + size) ≡ false
    → length (splice memory d.offset_to_write (take size bytes)) ≡ length memory
fits bytes size memory d short room =
    let taken : length (take size bytes) ≡ size = length-take size bytes (ground arith) in
    length-splice memory (take size bytes) d.offset_to_write (ground arith)

copy_bytes-sizes :
    (bytes : Bytes) (size : ℕ) (d : Dummy)
    → Holds (λ d'. sizes d' ≡ sizes d) (copy_bytes bytes size d)
unfolding copy_bytes
copy_bytes-sizes bytes size d = elim (Option-cases d.memory_to_write) [
  | inl nothing ↦ rw (nothing, Holds) tt
  | inr (area, there) ↦ elim (Option-cases (memory_of area d)) [
    | inl null ↦ rw (there, null, Holds) tt
    | inr (memory, m) ↦ elim (Bool-cases (ltb (length bytes) size)) [
      | inl short ↦ rw (there, m, short, Holds) tt
      | inr long ↦ elim (Bool-cases (ltb (length memory) (d.offset_to_write + size))) [
        | inl past ↦ rw (there, m, long, past, Holds) tt
        | inr room ↦
            rw (there, m, long, room, Holds)
              (set_memory-sizes area memory (splice memory d.offset_to_write (take size bytes)) d m
                (fits bytes size memory d long room))
      ]
    ]
  ]
]

module _ (z : Sizes) where
  abbrev SizesKept : {A : Type 0} → A × World Dummy → Type 0
  SizesKept r = HasSizes z r.1.emulator

  dummy_core_memory_read-Keeping : Keeping (HasSizes z) dummy_core_memory_read
  unfolding dummy_core_memory_read
  dummy_core_memory_read-Keeping fd args w p = >>=-Holds_any SizesKept (arg_at 1 args) _ (λ a1.
      >>=-Holds_any SizesKept (arg_at 2 args) _ (λ a2.
        >>=-Holds_any SizesKept (first_arg args) _ (λ name.
          >>=-Holds_any SizesKept
            (hex_string (bytes_at (find_area none name) (get_offset a1) w.emulator) (atoi a2)) _
            (λ text. p))))

  dummy_core_memory_write-Keeping : Keeping (HasSizes z) dummy_core_memory_write
  unfolding dummy_core_memory_write
  dummy_core_memory_write-Keeping fd args w p = >>=-Holds_any SizesKept (first_arg args) _ (λ name.
      >>=-Holds_any SizesKept (arg_at 1 args) _ (λ a1.
        >>=-Holds_any SizesKept
          (if length args == 3 then (arg_at 2 args >>= λ a. done (atoi a)) else done 0) _
          (λ size. p)))

  take_header-sizes :
      (block : Bytes) (size : ℕ) (d : Dummy)
      → Holds (λ r. sizes r.2 ≡ sizes d) (take_header block size d)
  unfolding take_header
  take_header-sizes block size d = elim (Bool-cases d.size_header_get) [
    | inl pending ↦ rw (pending, Holds) refl
    | inr not_pending ↦
        rw (not_pending)
          (>>=-Holds_any (λ r. sizes r.2 ≡ sizes d) (size_header block) _ (λ n. refl))
  ]

  end_write-sizes :
      (socket size : ℕ) (w : World Dummy)
      → sizes (end_write socket size w).emulator ≡ sizes w.emulator
  unfolding end_write
  end_write-sizes socket size w =
      elim (Bool-cases ((w.emulator.size_written + size) % 2 ^ 32 == w.emulator.size_to_write)) [
        | inl over ↦ rw (over) refl
        | inr more ↦ rw (more) refl
      ]

  write_to_memory-sizes :
      (socket : ℕ) (block : Bytes) (w : World Dummy)
      → HasSizes z w.emulator
      → Holds SizesKept (write_to_memory socket block w)
  unfolding write_to_memory
  write_to_memory-sizes socket block w p =
      >>=-Holds_any SizesKept (hex_string (some block) (length block % 2 ^ 32)) _ (λ text.
        >>=-Holds (λ r. sizes r.2 ≡ sizes w.emulator) SizesKept
          (take_header block (length block % 2 ^ 32) w.emulator) _
          (take_header-sizes block (length block % 2 ^ 32) w.emulator)
          (λ r q. elim (Bool-cases (r.1 == 0)) [
            | inl empty ↦ rw (empty, Holds) (q ∙ p)
            | inr some_bytes ↦ rw (some_bytes) (
                >>=-Holds (λ d'. sizes d' ≡ sizes r.2) SizesKept (copy_bytes r.0 r.1 r.2) _
                  (copy_bytes-sizes r.0 r.1 r.2)
                  (λ d' q'. end_write-sizes socket r.1 (record w { emulator = d' }) ∙ q' ∙ q ∙ p))
          ]))

  pub dummy_emulator-Keeps :
      (custom : List (Bytes × Handler Dummy))
      → All (λ e. Keeping (HasSizes z) e.1) custom
      → Keeps (HasSizes z) (dummy_emulator custom)
  unfolding dummy_emu_info dummy_emu_status dummy_emu_pause dummy_emu_stop dummy_emu_reset
      dummy_emu_resume dummy_emu_reload dummy_load_game dummy_game_info dummy_cores_list
      dummy_core_info dummy_core_current_info dummy_core_load dummy_core_memories dummy_np
      dummy_load_state dummy_save_state
  dummy_emulator-Keeps custom h = record {
    commands_keep = (
      λ fd args w p. p,
      (
        λ fd args w p. p,
        (
          λ fd args w p. p,
          (
            λ fd args w p. p,
            (
              λ fd args w p. p,
              (
                λ fd args w p. p,
                (
                  λ fd args w p. p,
                  (
                    λ fd args w p. p,
                    (
                      λ fd args w p. p,
                      (
                        λ fd args w p. p,
                        (
                          λ fd args w p. p,
                          (
                            λ fd args w p. p,
                            (
                              λ fd args w p. p,
                              (
                                λ fd args w p. p,
                                (
                                  dummy_core_memory_read-Keeping,
                                  (
                                    dummy_core_memory_write-Keeping,
                                    (
                                      λ fd args w p. p,
                                      (
                                        λ fd args w p. p,
                                        (λ fd args w p. p, (λ fd args w p. p, tt)),
                                      ),
                                    ),
                                  ),
                                ),
                              ),
                            ),
                          ),
                        ),
                      ),
                    ),
                  ),
                ),
              ),
            ),
          ),
        ),
      ),
    );
    custom_keep = h;
    write_keeps = write_to_memory-sizes;
  }
