-- ===== src/Voice/Player.antt =====
-- A1/audioplay.cpp: the player. Its signal `finished` is connected to `run`, which is called at once; the
-- sink calls `handleStateChanged` when it has played its buffer.
pub mod Order
pub mod Fifo
use computer_network_course.Prelude.{
  ℕ, zero, suc, ◌+◌, ◌≡◌, List, [], ◌∷◌, ◌++◌, Option, none, some,
}
use computer_network_course.Voice.Framing.{Bytes}

-- `timers` counts the single shots that are still to call `finished`.
pub record Player : Type 0 where
  pub source_buffer : List Bytes
  pub buff : Option Bytes
  pub timers : ℕ

abbrev wait_more : Player → Player
wait_more p = record p { timers = p.timers + 1 }

-- `run`, by what it reads: an empty queue or a buffer that is being played waits, else the first starts.
unfoldable pub run_on : List Bytes → Option Bytes → Player → Player
run_on [] buff p = wait_more p
run_on (b ∷ queue) none p = record p { source_buffer = queue; buff = some b }
run_on (b ∷ queue) (some playing) p = wait_more p

unfoldable pub run : Player → Player
unfolding run_on
run p = run_on p.source_buffer p.buff p

-- `stopAudioOutput`, with its own `finished`.
unfoldable pub stop_audio_output : Player → Player
stop_audio_output p = run (record p { buff = none })

-- `handleStateChanged` at the end of a buffer, which emits `finished` once more.
unfoldable pub handle_idle : Player → Player
handle_idle p = run (stop_audio_output p)

-- The player, the buffers that were received, and those that were played to their end.
pub record Session : Type 0 where
  pub player : Player
  pub received : List Bytes
  pub played : List Bytes

pub data Step : Session → Session → Type 0 where
  arrives :
      (s : Session) (b : Bytes)
      → Step s (record s {
        player = record s.player { source_buffer = s.player.source_buffer ++ b ∷ [] };
        received = s.received ++ b ∷ [];
      })
  fires :
      (s : Session) (n : ℕ)
      → s.player.timers ≡ suc n
      → Step s (record s { player = run (record s.player { timers = n }) })
  ends :
      (s : Session) (b : Bytes)
      → s.player.buff ≡ some b
      → Step s (record s { player = handle_idle s.player; played = s.played ++ b ∷ [] })

-- From main.cpp's call of `run` on.
abbrev pub begin : Session
begin = record {
  player = run (record { source_buffer = []; buff = none; timers = 0 });
  received = [];
  played = [];
}

pub data Reach : Session → Type 0 where
  here : Reach begin
  next : {s u : Session} → Reach s → Step s u → Reach u
