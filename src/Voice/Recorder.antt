-- ===== src/Voice/Recorder.antt =====
-- A1/audiorec.cpp, and the choice of roles in main.cpp.
pub mod Mute
use computer_network_course.Prelude.{ℕ, Bool, not, List, [], ◌∷◌, ◌++◌, ltb, if◌then◌else◌}
use computer_network_course.Voice.Framing.{Bytes}

-- `started` is whether the source was started into the buffer of the period that runs.
pub record Recorder : Type 0 where
  pub is_mute : Bool
  pub started : Bool
  pub destination_buffer : List Bytes

-- `run`, with a new buffer.
unfoldable pub run : Recorder → Recorder
run r = record r { started = not r.is_mute }

-- `stopRecording` behind a period in which a source would have written `captured`; `finished` is
-- connected to `run`.
unfoldable stop_recording : Bytes → Recorder → Recorder
stop_recording captured r = run (record r {
  destination_buffer = r.destination_buffer ++ (if r.started then captured else []) ∷ [];
})

unfoldable toggle_mute_state : Recorder → Recorder
toggle_mute_state r = record r { is_mute = not r.is_mute }

-- Which of the two sockets `main` opens first: `true` is the one that connects.
unfoldable sends_first : ℕ → ℕ → Bool
sends_first send_port receive_port = ltb send_port receive_port
