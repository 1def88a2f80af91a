-- ===== src/Voice/Recorder/Mute.antt =====
-- A1/audiorec.cpp: what the button does to the buffers.
use computer_network_course.Prelude.{
  ℕ, zero, suc, ◌+◌, ◌≡◌, refl, sym, ap, ap₂, ◌∙◌, arith, Bool, true, false, not, List, [], ◌∷◌,
  ◌++◌, append-nil, append_assoc, if◌then◌else◌,
}
use computer_network_course.Voice.Framing.{Bytes}
use computer_network_course.Voice.Recorder.{Recorder, run, stop_recording, toggle_mute_state}

-- A period of recording: how often the button is pressed in it, and what a source would write.
pub record Period : Type 0 where
  pub presses : ℕ
  pub captured : Bytes

abbrev pub press : ℕ → Recorder → Recorder
press zero r = r
press (suc n) r = toggle_mute_state (press n r)

abbrev pub record_all : List Period → Recorder → Recorder
record_all [] r = r
record_all (p ∷ periods) r = record_all periods (stop_recording p.captured (press p.presses r))

abbrev pub odd : ℕ → Bool
odd zero = false
odd (suc n) = not (odd n)

-- The buffers, by how often the button was pressed before each period.
abbrev pub heard : ℕ → List Period → List Bytes
heard n [] = []
heard n (p ∷ periods) = (if odd n then [] else p.captured) ∷ heard (p.presses + n) periods

press_lem :
    (k n : ℕ) (r : Recorder)
    → r.is_mute ≡ odd n
    → ((press k r).is_mute ≡ odd (k + n))
      × ((press k r).started ≡ r.started)
      × ((press k r).destination_buffer ≡ r.destination_buffer)
unfolding toggle_mute_state
press_lem zero n r e = let same : n ≡ 0 + n = omega arith in (e ∙ ap odd same, refl, refl)
press_lem (suc k) n r e =
    let (mute, started, buffers) = press_lem k n r e in
    let same : suc (k + n) ≡ suc k + n = omega arith in
    (ap not mute ∙ ap odd same, started, buffers)

silent : (b : Bool) (x : Bytes) → (if not b then x else []) ≡ (if b then [] else x)
silent true x = refl
silent false x = refl

record_all_from :
    (periods : List Period) (n : ℕ) (r : Recorder)
    → r.is_mute ≡ odd n
    → r.started ≡ not (odd n)
    → (record_all periods r).destination_buffer ≡ r.destination_buffer ++ heard n periods
unfolding stop_recording run
record_all_from [] n r e s = sym (append-nil r.destination_buffer)
record_all_from (p ∷ periods) n r e s =
    let (mute, started, buffers) = press_lem p.presses n r e in
    record_all_from periods (p.presses + n) (stop_recording p.captured (press p.presses r)) mute
      (ap not mute)
    ∙ ap₂ (λ bs st. (bs ++ (if st then p.captured else []) ∷ []) ++ heard (p.presses + n) periods)
        buffers (started ∙ s)
    ∙ ap (λ b. (r.destination_buffer ++ b ∷ []) ++ heard (p.presses + n) periods)
        (silent (odd n) p.captured)
    ∙ append_assoc r.destination_buffer ((if odd n then [] else p.captured) ∷ [])
        (heard (p.presses + n) periods)

-- From the start of the recorder with an empty queue: every period queues one buffer, in order, and it
-- is empty exactly where the button was pressed an odd number of times before the period began; pressing
-- it inside a period does not change that period's buffer.
pub record_all-heard :
    (periods : List Period)
    → (record_all periods (
        run (record {
          is_mute = false;
          started = false;
          destination_buffer = [];
        }))).destination_buffer
      ≡ heard 0 periods
unfolding run
record_all-heard periods =
    record_all_from periods 0
      (run (record { is_mute = false; started = false; destination_buffer = [] })) refl refl
