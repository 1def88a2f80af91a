-- ===== src/Voice/Tests.antt =====
-- The theorems about A1 at concrete buffers.
use mathlib.Core.List.{flatten}
use computer_network_course.Prelude.{
  ◌≡◌, ◌≢◌, refl, sym, ap, ◌∙◌, Bool, true, false, ◌||◌, ◌==◌, if◌then◌else◌, if_true, if_false,
  All, All-append, Lacks, append-nil, append_assoc, arith, List, [], ◌∷◌, ◌++◌, Option, none, some,
  map,
}
use computer_network_course.Voice.Framing.{Bytes, newline, Asio, start}
use computer_network_course.Voice.Framing.Delivery.{
  Cut, message, reads, sent, received, voice_delivered, coalesced_reads,
}
use computer_network_course.Voice.Player
use computer_network_course.Voice.Recorder
use computer_network_course.Voice.Recorder.Mute.{record_all, record_all-heard}
use computer_network_course.Voice.Player.{Session, begin, Reach, arrives, fires, run, run_on}
use computer_network_course.Voice.Player.Order.{InOrder, Reach-InOrder}

abbrev has_newline : Bytes → Bool
has_newline [] = false
has_newline (b ∷ bytes) = b == newline || has_newline bytes

-- Reads until one brings a newline.
unfoldable read_chunks : Bytes → List Bytes → Option (Bytes × List Bytes)
read_chunks got [] = none
read_chunks got (chunk ∷ chunks) =
    let rest = read_chunks (got ++ chunk) chunks in
    if has_newline (got ++ chunk) then some (got ++ chunk, chunks) else rest

has_newline-Lacks : (b : Bytes) → Lacks newline b → has_newline b ≡ false
has_newline-Lacks [] h = refl
has_newline-Lacks (x ∷ b) (hx, h) = ground (arith, has_newline-Lacks b h)

has_newline_end : (b behind : Bytes) → has_newline (b ++ newline ∷ behind) ≡ true
has_newline_end [] behind = refl
has_newline_end (x ∷ b) behind = ground (arith, has_newline_end b behind)

read_parts :
    (got : Bytes) (parts : List Bytes) (last behind : Bytes) (rest : List Bytes)
    → Lacks newline got
    → All (Lacks newline) parts
    → read_chunks got (parts ++ (last ++ newline ∷ behind) ∷ rest)
      ≡ some ((got ++ flatten parts) ++ (last ++ newline ∷ behind), rest)
unfolding read_chunks flatten
read_parts got [] last behind rest hg hp =
    if_true _ _ (has_newline (got ++ (last ++ newline ∷ behind))) (
      ap has_newline (sym (append_assoc got last (newline ∷ behind)))
      ∙ has_newline_end (got ++ last) behind)
    ∙ ap (λ x. some (x ++ (last ++ newline ∷ behind), rest)) (sym (append-nil got))
read_parts got (p ∷ parts) last behind rest hg (hp, h) =
    if_false _ _ (has_newline (got ++ p))
      (has_newline-Lacks (got ++ p) (All-append (λ c. c ≢ newline) got p hg hp))
    ∙ read_parts (got ++ p) parts last behind rest (All-append (λ c. c ≢ newline) got p hg hp) h
    ∙ ap (λ x. some (x ++ (last ++ newline ∷ behind), rest)) (append_assoc got p (flatten parts))

abbrev chunked : Asio
unfolding flatten
chunked = record {
  read_until = read_chunks [];
  read_until_parts = λ parts last behind rest hp hl. read_parts [] parts last behind rest tt hp;
}

-- Two buffers, the first read in two pieces, with an empty one between them.
abbrev cuts : List Cut
cuts =
    record { parts = (7 ∷ []) ∷ []; last = 8 ∷ [] }
    ∷ record { parts = []; last = [] }
    ∷ record { parts = []; last = 9 ∷ [] }
    ∷ []

voice_delivered_example :
    (flatten (reads cuts) ≡ flatten (sent 3 (map message cuts)))
    × (received chunked 3 (reads cuts) [] ≡ some ([], (7 ∷ 8 ∷ []) ∷ (9 ∷ []) ∷ []))
unfolding flatten
voice_delivered_example = voice_delivered chunked cuts [] (
  (((omega arith, tt), tt), (omega arith, tt), (omega arith, (omega arith, tt))),
  ((tt, tt, tt), ((tt, (omega arith, tt), (omega arith, tt)), tt)),
)

coalesced_reads_example :
    (start chunked ((7 ∷ newline ∷ 8 ∷ newline ∷ []) ∷ []) []
      ≡ some ([], (7 ∷ newline ∷ 8 ∷ []) ∷ []))
    × (start chunked ((newline ∷ 8 ∷ newline ∷ []) ∷ []) [] ≡ some ([], []))
coalesced_reads_example =
    coalesced_reads chunked 7 [] (8 ∷ []) [] [] (omega arith, tt)
      (omega arith, (omega arith, (omega arith, tt)))

-- One buffer arrives, and the timer finds it.
abbrev arrived : Session
arrived = record {
  player = record begin.player { source_buffer = (7 ∷ []) ∷ [] };
  received = (7 ∷ []) ∷ [];
  played = [];
}

one_timer : arrived.player.timers ≡ 1
unfolding run run_on
one_timer = refl

Reach-InOrder_example :
    InOrder (record arrived { player = run (record arrived.player { timers = 0 }) })
unfolding run run_on
Reach-InOrder_example =
    Reach-InOrder
      (Player.next (Player.next Player.here (arrives begin (7 ∷ []))) (fires arrived 0 one_timer))

-- Pressed twice in the first period, and once in the second.
record_all-heard_example :
    (record_all
      (record { presses = 2; captured = 7 ∷ [] }
        ∷ record { presses = 1; captured = 8 ∷ [] }
        ∷ record { presses = 0; captured = 9 ∷ [] }
        ∷ [])
      (Recorder.run
        (record { is_mute = false; started = false; destination_buffer = [] }))).destination_buffer
    ≡ (7 ∷ []) ∷ (8 ∷ []) ∷ [] ∷ []
record_all-heard_example = record_all-heard (
    record { presses = 2; captured = 7 ∷ [] }
    ∷ record { presses = 1; captured = 8 ∷ [] }
    ∷ record { presses = 0; captured = 9 ∷ [] }
    ∷ [])
