-- ===== src/Tests/Replies.antt =====
-- Replies and what a client reads of them.
use emulator_networkaccess.Prelude.{[], ◌∷◌, Bytes, codes, ◌≡◌, refl, arith, some}
use emulator_networkaccess.Protocol.{invalid_argument}
use emulator_networkaccess.Reply.{Pairs, send_full_hash_reply, send_error}
use emulator_networkaccess.Reply.Sent.{delivered}
use emulator_networkaccess.Reply.Parse.{parse_reply, send_full_hash_reply-parse, send_error-parse}
use emulator_networkaccess.Tests.Fixture.{idle_world}

abbrev core : Pairs
core = (codes "platform", codes "SNES") ∷ (codes "name", codes "dummy core") ∷ []

core_reply :
    delivered 7 (send_full_hash_reply 7 core idle_world).trace
    ≡ codes "\nplatform:SNES\nname:dummy core\n\n"
unfolding send_full_hash_reply
core_reply = refl

send_full_hash_reply-parse_example :
    (reply : Bytes) × (delivered 7 (send_full_hash_reply 7 core idle_world).trace ≡ reply)
    × (parse_reply reply ≡ some core)
send_full_hash_reply-parse_example =
    send_full_hash_reply-parse 7 core idle_world (omega arith) (omega arith)

send_error-parse_example :
    (reply : Bytes) × (delivered 7 (send_error 7 invalid_argument (codes "no") idle_world).trace
      ≡ reply)
    × (parse_reply reply
        ≡ some ((codes "error", codes "invalid_argument") ∷ (codes "reason", codes "no") ∷ []))
send_error-parse_example = send_error-parse 7 invalid_argument (codes "no") idle_world (omega arith)
