-- ===== src/Reply.antt =====
-- generic poll server/generic_poll_server.c, the functions that write replies to a socket.
pub mod Sent
pub mod Parse
use emulator_networkaccess.Prelude.{
  ℕ, ◌+◌, ◌-◌, ◌/◌, ◌%◌, ◌^◌, Bool, true, false, List, [], ◌∷◌, ◌++◌, Bytes, codes, length, take,
  set, if◌then◌else◌,
}
use emulator_networkaccess.Protocol.{ErrorType, error_type_string}
use emulator_networkaccess.World.{World, write}

-- What `snprintf` leaves in a buffer of `size` bytes, the final NUL included.
unfoldable pub snprintf : ℕ → Bytes → Bytes
snprintf size text = take (size - 1) text ++ (0 ∷ [])

-- The pairs that are passed as variable arguments.
abbrev pub Pairs : Type 0
Pairs = List (Bytes × Bytes)

unfoldable pub start_hash_reply : {E : Type 0} → ℕ → World E → World E
start_hash_reply fd w = write fd (codes "\n") w

unfoldable pub end_hash_reply : {E : Type 0} → ℕ → World E → World E
end_hash_reply fd w = write fd (codes "\n") w

-- One round of the loop of `__send_hash_reply`: the buffer is printed, its NUL is made a newline, and
-- `size_kv + 2` bytes of it are written. The sizes are `unsigned int`; where `size_kv + 3` wraps, the
-- code writes past its buffer, which is not modelled.
unfoldable pub send_pair : {E : Type 0} → ℕ → Bytes → Bytes → World E → World E
unfolding snprintf
send_pair fd key value w =
    let size_kv = (length key + length value) % 2 ^ 32 in
    let written = (size_kv + 2) % 2 ^ 32 in
    let buffer = snprintf written (key ++ (b':' ∷ value)) in
    write fd (take written (set buffer ((size_kv + 1) % 2 ^ 32) b'\n')) w

-- `__send_hash_reply`
unfoldable pub send_pairs : {E : Type 0} → ℕ → Bool → Pairs → World E → World E
unfolding send_pair end_hash_reply
send_pairs fd end [] w = if end then end_hash_reply fd w else w
send_pairs fd end ((key, value) ∷ rest) w = send_pairs fd end rest (send_pair fd key value w)

unfoldable pub send_hash_reply : {E : Type 0} → ℕ → Pairs → World E → World E
unfolding send_pairs
send_hash_reply fd pairs w = send_pairs fd false pairs w

unfoldable pub send_full_hash_reply : {E : Type 0} → ℕ → Pairs → World E → World E
unfolding start_hash_reply send_pairs
send_full_hash_reply fd pairs w = send_pairs fd true pairs (start_hash_reply fd w)

-- `htonl` of a `uint32_t`, as the four bytes that are sent.
unfoldable pub network_order : ℕ → Bytes
network_order n = n / 2 ^ 24 % 256 ∷ n / 2 ^ 16 % 256 ∷ n / 2 ^ 8 % 256 ∷ n % 256 ∷ []

-- `size` is the number of the bytes of `block`.
unfoldable pub send_binary_block : {E : Type 0} → ℕ → Bytes → World E → World E
unfolding network_order
send_binary_block fd block w =
    write fd block (write fd (network_order (length block)) (write fd (0 ∷ []) w))

-- The text that `send_error` prints.
abbrev pub error_text : ErrorType → Bytes → Bytes
error_text kind reason =
    codes "\nerror:" ++ (error_type_string kind ++ (codes "\nreason:" ++ (reason ++ codes "\n\n")))

-- The text is printed into a buffer of `to_send_size` bytes, and as many bytes are written as the
-- whole text has.
unfoldable pub send_error : {E : Type 0} → ℕ → ErrorType → Bytes → World E → World E
unfolding snprintf
send_error fd kind reason w =
    let to_send_size =
      1
      + (length (codes "error") + 1 + length (error_type_string kind) + 1)
      + (length (codes "reason") + 1 + length reason + 1)
      + 2 in
    let tosend = snprintf to_send_size (error_text kind reason) in
    write fd (take (length (error_text kind reason)) tosend) w
