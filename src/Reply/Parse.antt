-- ===== src/Reply/Parse.antt =====
-- A reader of ASCII replies, written from the protocol's text.
use mathlib.Core.Option
use emulator_networkaccess.Prelude.{
  ℕ, Option, none, some, [], ◌∷◌, ◌++◌, Bytes, codes, All, ◌==◌, if◌then◌else◌, append-nil,
  append_assoc, ◌≡◌, ◌≢◌, refl, ap, sym, ◌∙◌, arith,
}
use emulator_networkaccess.Protocol.{ErrorType, error_type_string, protocol_error}
use emulator_networkaccess.World.{World}
use emulator_networkaccess.Reply.{Pairs, send_full_hash_reply, error_text, send_error}
use emulator_networkaccess.Reply.Sent.{
  delivered, delivered-write, lines, IsShort, delivered-send_full_hash_reply, send_error_lem,
}

-- An empty line ends a reply.
end_of_reply : Bytes → Bytes → Option Pairs
end_of_reply [] [] = some []
end_of_reply _ _ = none

-- The reader: `key` is the key of the line, once its colon was read, and `acc` what was read behind.
unfoldable pub read_lines : Option Bytes → Bytes → Bytes → Option Pairs
unfolding end_of_reply
read_lines key acc [] = none
read_lines none acc (c ∷ cs) =
    let value = read_lines (some acc) [] cs in
    let next_byte = read_lines none (acc ++ (c ∷ [])) cs in
    if c == b'\n' then end_of_reply acc cs else if c == b':' then value else next_byte
read_lines (some key) acc (c ∷ cs) =
    let next_line = read_lines none [] cs in
    let next_byte = read_lines (some key) (acc ++ (c ∷ [])) cs in
    if c == b'\n' then Option.map (λ r. (key, acc) ∷ r) next_line else next_byte

unfoldable pub parse_reply : Bytes → Option Pairs
unfolding read_lines
parse_reply [] = none
parse_reply (c ∷ cs) = if c == b'\n' then read_lines none [] cs else none

abbrev pub IsKeyByte : ℕ → Type 0
IsKeyByte c = (c ≢ b':') × (c ≢ b'\n')

-- A pair that the format can express.
abbrev pub IsPair : Bytes × Bytes → Type 0
IsPair p = All IsKeyByte p.0 × All (λ c. c ≢ b'\n') p.1

read_key :
    (k acc rest : Bytes)
    → All IsKeyByte k
    → read_lines none acc (k ++ (b':' ∷ rest)) ≡ read_lines (some (acc ++ k)) [] rest
unfolding read_lines
read_key [] acc rest p = ap (λ t. read_lines (some t) [] rest) (sym (append-nil acc))
read_key (c ∷ cs) acc rest p =
    ground (arith, read_key cs (acc ++ (c ∷ [])) rest p.1, append_assoc acc (c ∷ []) cs)

read_value :
    (v key acc rest : Bytes)
    → All (λ c. c ≢ b'\n') v
    → read_lines (some key) acc (v ++ (b'\n' ∷ rest))
      ≡ Option.map (λ r. (key, acc ++ v) ∷ r) (read_lines none [] rest)
unfolding read_lines
read_value [] key acc rest p =
    ap (λ t. Option.map (λ r. (key, t) ∷ r) (read_lines none [] rest)) (sym (append-nil acc))
read_value (c ∷ cs) key acc rest p =
    ground (arith, read_value cs key (acc ++ (c ∷ [])) rest p.1, append_assoc acc (c ∷ []) cs)

read_lines-lines :
    (pairs : Pairs)
    → All IsPair pairs
    → read_lines none [] (lines pairs ++ (b'\n' ∷ [])) ≡ some pairs
read_lines-lines [] p = unfold read_lines in refl
read_lines-lines ((key, value) ∷ rest) p =
    ap (read_lines none []) (simp append_assoc)
    ∙ read_key key [] (value ++ (b'\n' ∷ (lines rest ++ (b'\n' ∷ [])))) p.0.0
    ∙ read_value value key [] (lines rest ++ (b'\n' ∷ [])) p.0.1
    ∙ ap (Option.map (λ r. (key, value) ∷ r)) (read_lines-lines rest p.1)

-- What `generic_poll_server_send_full_hash_reply` sends is one ASCII reply of the protocol, and a
-- client reads the pairs back from it, in their order, if the keys hold no colon and no newline, the
-- values hold no newline, and for each pair the lengths of key and value with 3 more are below 2^32.
pub send_full_hash_reply-parse :
    {E : Type 0} (fd : ℕ) (pairs : Pairs) (w : World E)
    → All IsPair pairs
    → All IsShort pairs
    → (reply : Bytes) × (delivered fd (send_full_hash_reply fd pairs w).trace
        ≡ delivered fd w.trace ++ reply)
      × (parse_reply reply ≡ some pairs)
send_full_hash_reply-parse fd pairs w p s = (
  b'\n' ∷ (lines pairs ++ (b'\n' ∷ [])),
  delivered-send_full_hash_reply fd pairs w s,
  unfold parse_reply in read_lines-lines pairs p,
)

error_type_IsPair : (kind : ErrorType) → IsPair (codes "error", error_type_string kind)
error_type_IsPair protocol_error = ground arith
error_type_IsPair _ = ground arith

-- What `send_error` sends is one ASCII reply, not cut short by its buffer, from which a client reads
-- the type of the error and the reason. The reason holds no newline.
pub send_error-parse :
    {E : Type 0} (fd : ℕ) (kind : ErrorType) (reason : Bytes) (w : World E)
    → All (λ c. c ≢ b'\n') reason
    → (reply : Bytes) × (delivered fd (send_error fd kind reason w).trace
        ≡ delivered fd w.trace ++ reply)
      × (parse_reply reply
          ≡ some ((codes "error", error_type_string kind) ∷ (codes "reason", reason) ∷ []))
send_error-parse fd kind reason w p = (
  error_text kind reason,
  ap (λ w'. delivered fd w'.trace) (send_error_lem fd kind reason w)
      ∙ delivered-write fd (error_text kind reason) w,
  unfold parse_reply in
      ap (read_lines none []) layout
      ∙ read_lines-lines pairs (error_type_IsPair kind, (pairs_reason, tt)),
)
  where
    pairs : Pairs
    pairs = (codes "error", error_type_string kind) ∷ (codes "reason", reason) ∷ []

    pairs_reason : IsPair (codes "reason", reason)
    pairs_reason = (omega arith, p)

    layout :
        codes "error:"
          ++ (error_type_string kind ++ (codes "\nreason:" ++ (reason ++ codes "\n\n")))
        ≡ lines pairs ++ (b'\n' ∷ [])
    layout = simp append_assoc
