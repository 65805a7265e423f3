-- ===== src/Reply/Sent.antt =====
-- The bytes that the reply functions write.
use emulator_networkaccess.Prelude.{
  All, ◌<◌, ◌%◌, ◌^◌, ℕ, ◌+◌, ◌-◌, true, List, [], ◌∷◌, ◌++◌, Bytes, codes, length, take, set,
  ==_refl, ◌==◌, if◌then◌else◌, length-append, take-length, take-append_self, set-append_self,
  append-nil, append_assoc, ◌≡◌, refl, ap, ◌∙◌, arith,
}
use emulator_networkaccess.Protocol.{ErrorType, error_type_string}
use emulator_networkaccess.World.{
  World, Event, sent, closed, client_added, client_removed, server_started, after_poll, write,
}
use emulator_networkaccess.Reply.{
  Pairs, snprintf, send_pair, send_pairs, send_full_hash_reply, start_hash_reply, end_hash_reply,
  error_text, send_error,
}

-- The bytes that one socket was sent, in the order of the calls.
abbrev pub delivered : ℕ → List Event → Bytes
delivered fd [] = []
delivered fd (sent k bytes ∷ es) = if k == fd then bytes ++ delivered fd es else delivered fd es
delivered fd (_ ∷ es) = delivered fd es

delivered-append :
    (fd : ℕ) (es fs : List Event) → delivered fd (es ++ fs) ≡ delivered fd es ++ delivered fd fs
delivered-append fd [] fs = refl
delivered-append fd (sent k bytes ∷ es) fs =
    ground
      (arith, delivered-append fd es fs, append_assoc bytes (delivered fd es) (delivered fd fs))
delivered-append fd (closed k ∷ es) fs = delivered-append fd es fs
delivered-append fd (client_added k ∷ es) fs = delivered-append fd es fs
delivered-append fd (client_removed k ∷ es) fs = delivered-append fd es fs
delivered-append fd (server_started p ∷ es) fs = delivered-append fd es fs
delivered-append fd (after_poll ∷ es) fs = delivered-append fd es fs

pub delivered-write :
    {E : Type 0} (fd : ℕ) (bytes : Bytes) (w : World E)
    → delivered fd (write fd bytes w).trace ≡ delivered fd w.trace ++ bytes
delivered-write fd bytes w =
    delivered-append fd w.trace (sent fd bytes ∷ []) ∙ ground (arith, ==_refl fd, append-nil bytes)

-- The pairs of an ASCII reply, as the protocol lays it out.
abbrev pub lines : Pairs → Bytes
lines [] = []
lines ((key, value) ∷ rest) = key ++ (b':' ∷ (value ++ (b'\n' ∷ lines rest)))

snprintf_whole :
    (size : ℕ) (text : Bytes) → size ≡ length text + 1 → snprintf size text ≡ text ++ (0 ∷ [])
unfolding snprintf
snprintf_whole size text e =
    ap (λ n. take n text ++ (0 ∷ [])) (let f : size - 1 ≡ length text = omega arith in f)
    ∙ ap (λ t. t ++ (0 ∷ [])) (take-length text)

take_whole : (n : ℕ) (xs : Bytes) → n ≡ length xs → take n xs ≡ xs
take_whole n xs e = ap (λ k. take k xs) e ∙ take-length xs

-- Pairs whose sizes do not wrap.
abbrev pub IsShort : Bytes × Bytes → Type 0
IsShort p = length p.0 + length p.1 + 3 < 2 ^ 32

send_pair_lem :
    {E : Type 0} (fd : ℕ) (key value : Bytes) (w : World E)
    → IsShort (key, value)
    → send_pair fd key value w ≡ write fd (key ++ (b':' ∷ (value ++ (b'\n' ∷ [])))) w
unfolding send_pair
send_pair_lem fd key value w short = rw (kept, kept_1, kept_2) (ap (λ t. write fd t w) printed)
  where
    kept : (length key + length value) % 2 ^ 32 ≡ length key + length value
    kept = omega arith

    kept_1 : (length key + length value + 1) % 2 ^ 32 ≡ length key + length value + 1
    kept_1 = omega arith

    kept_2 : (length key + length value + 2) % 2 ^ 32 ≡ length key + length value + 2
    kept_2 = omega arith

    size : ℕ
    size = length key + length value

    text : Bytes
    text = key ++ (b':' ∷ value)

    size_text : size + 1 ≡ length text
    size_text = omega (arith, length-append key (b':' ∷ value))

    printed :
        take (size + 2) (set (snprintf (size + 2) text) (size + 1) b'\n')
        ≡ key ++ (b':' ∷ (value ++ (b'\n' ∷ [])))
    printed =
        ap (λ t. take (size + 2) (set t (size + 1) b'\n'))
          (snprintf_whole (size + 2) text (omega (arith, size_text)))
        ∙ ap (λ n. take (size + 2) (set (text ++ (0 ∷ [])) n b'\n')) size_text
        ∙ ap (take (size + 2)) (set-append_self text 0 b'\n')
        ∙ take_whole (size + 2) (text ++ (b'\n' ∷ []))
            (omega (arith, size_text, length-append text (b'\n' ∷ [])))
        ∙ append_assoc key (b':' ∷ value) (b'\n' ∷ [])

delivered-send_pairs :
    {E : Type 0} (fd : ℕ) (pairs : Pairs) (w : World E)
    → All IsShort pairs
    → delivered fd (send_pairs fd true pairs w).trace
      ≡ delivered fd w.trace ++ (lines pairs ++ (b'\n' ∷ []))
unfolding send_pairs end_hash_reply
delivered-send_pairs fd [] w h = delivered-write fd (codes "\n") w
delivered-send_pairs fd ((key, value) ∷ rest) w h =
    ap (λ w'. delivered fd (send_pairs fd true rest w').trace) (send_pair_lem fd key value w h.0)
    ∙ delivered-send_pairs fd rest (write fd (key ++ (b':' ∷ (value ++ (b'\n' ∷ [])))) w) h.1
    ∙ ap (λ t. t ++ (lines rest ++ (b'\n' ∷ [])))
        (delivered-write fd (key ++ (b':' ∷ (value ++ (b'\n' ∷ [])))) w)
    ∙ simp append_assoc

delivered-start :
    {E : Type 0} (fd : ℕ) (w : World E)
    → delivered fd (start_hash_reply fd w).trace ≡ delivered fd w.trace ++ codes "\n"
unfolding start_hash_reply
delivered-start fd w = delivered-write fd (codes "\n") w

pub delivered-send_full_hash_reply :
    {E : Type 0} (fd : ℕ) (pairs : Pairs) (w : World E)
    → All IsShort pairs
    → delivered fd (send_full_hash_reply fd pairs w).trace
      ≡ delivered fd w.trace ++ (b'\n' ∷ (lines pairs ++ (b'\n' ∷ [])))
unfolding send_full_hash_reply
delivered-send_full_hash_reply fd pairs w h =
    delivered-send_pairs fd pairs (start_hash_reply fd w) h
    ∙ ap (λ t. t ++ (lines pairs ++ (b'\n' ∷ []))) (delivered-start fd w)
    ∙ append_assoc (delivered fd w.trace) (codes "\n") (lines pairs ++ (b'\n' ∷ []))

-- The buffer of `send_error` holds the whole text.
pub send_error_lem :
    {E : Type 0} (fd : ℕ) (kind : ErrorType) (reason : Bytes) (w : World E)
    → send_error fd kind reason w ≡ write fd (error_text kind reason) w
unfolding send_error
send_error_lem fd kind reason w = ap (λ t. write fd t w) whole
  where
    text : Bytes
    text = error_text kind reason

    size : ℕ
    size =
        1
        + (length (codes "error") + 1 + length (error_type_string kind) + 1)
        + (length (codes "reason") + 1 + length reason + 1)
        + 2

    fits : size ≡ length text + 1
    fits = omega (
      arith,
      length-append (error_type_string kind) (codes "\nreason:" ++ (reason ++ codes "\n\n")),
      length-append reason (codes "\n\n"),
    )

    whole : take (length text) (snprintf size text) ≡ text
    whole = ap (take (length text)) (snprintf_whole size text fits) ∙ take-append_self text (0 ∷ [])
