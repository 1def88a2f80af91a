-- ===== src/Voice/Player/Order.antt =====
-- A1/audioplay.cpp: what is played, and how many timers run.
use computer_network_course.Prelude.{
  ℕ, ◌+◌, ◌≡◌, refl, sym, ap, ap₂, ◌∙◌, arith, List, [], ◌∷◌, ◌++◌, append_assoc, Option, none,
  some, length, length-append,
}
use computer_network_course.Voice.Framing.{Bytes}
use computer_network_course.Voice.Player.{
  Player, run, run_on, stop_audio_output, handle_idle, Session, Step, arrives, fires, ends, begin,
  Reach, here, next,
}

abbrev pub in_play : Option Bytes → List Bytes
in_play none = []
in_play (some b) = b ∷ []

-- What is to be played still.
abbrev pub queue : Player → List Bytes
queue p = in_play p.buff ++ p.source_buffer

abbrev pub loops : Player → ℕ
loops p = p.timers + length (in_play p.buff)

run_on_lem :
    (source : List Bytes) (buff : Option Bytes) (p : Player)
    → p.source_buffer ≡ source
    → p.buff ≡ buff
    → (queue (run_on source buff p) ≡ in_play buff ++ source)
      × (loops (run_on source buff p) ≡ p.timers + length (in_play buff) + 1)
unfolding run_on
run_on_lem [] buff p es eb =
    (ap₂ (λ x y. in_play x ++ y) eb es, omega (arith, ap (λ x. length (in_play x)) eb))
run_on_lem (b ∷ source) none p es eb = (refl, omega arith)
run_on_lem (b ∷ source) (some playing) p es eb =
    (ap₂ (λ x y. in_play x ++ y) eb es, omega (arith, ap (λ x. length (in_play x)) eb))

pub run_lem : (p : Player) → (queue (run p) ≡ queue p) × (loops (run p) ≡ loops p + 1)
unfolding run
run_lem p = run_on_lem p.source_buffer p.buff p refl refl

pub record InOrder (s : Session) : Type 0 where
  pub all_there : s.played ++ queue s.player ≡ s.received
  pub counted : loops s.player ≡ length s.played + 1

Step-InOrder : {s u : Session} → Step s u → InOrder s → InOrder u
unfolding handle_idle stop_audio_output
Step-InOrder (arrives s b) h = record {
  all_there =
      ap (◌++◌ s.played)
        (sym (append_assoc (in_play s.player.buff) s.player.source_buffer (b ∷ [])))
      ∙ sym (append_assoc s.played (queue s.player) (b ∷ []))
      ∙ ap (λ x. x ++ b ∷ []) h.all_there;
  counted = h.counted;
}
Step-InOrder (fires s n e) h =
    let (same, more) = run_lem (record s.player { timers = n }) in
    record {
      all_there = ap (◌++◌ s.played) same ∙ h.all_there;
      counted = omega (arith, more, h.counted, e);
    }
Step-InOrder (ends s b e) h =
    let idle : Player = record s.player { buff = none } in
    let (same, more) = run_lem idle in
    let (same', more') = run_lem (run idle) in
    record {
      all_there =
          ap (◌++◌ (s.played ++ b ∷ [])) (same' ∙ same)
          ∙ append_assoc s.played (b ∷ []) s.player.source_buffer
          ∙ ap (λ x. s.played ++ (in_play x ++ s.player.source_buffer)) (sym e)
          ∙ h.all_there;
      counted = omega (
        arith,
        more,
        more',
        h.counted,
        ap (λ x. length (in_play x)) e,
        length-append s.played (b ∷ []),
      );
    }

begin-InOrder : InOrder begin
unfolding run run_on
begin-InOrder = record { all_there = refl; counted = refl }

-- In every history of the player, the buffers played, the one in play and those that wait are together
-- exactly the buffers received, in order; and the timers that run, with the buffer in play, are one more
-- than the buffers played: playing never stops for good, but every buffer leaves one more timer behind.
pub Reach-InOrder : {s : Session} → Reach s → InOrder s
Reach-InOrder here = begin-InOrder
Reach-InOrder (next r st) = Step-InOrder st (Reach-InOrder r)
