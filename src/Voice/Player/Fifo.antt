-- ===== src/Voice/Player/Fifo.antt =====
-- A1/audioplay.cpp: the player as a queue of buffers.
use computer_network_course.Prelude.{List, [], ◌∷◌, ◌++◌}
use computer_network_course.Voice.Framing.{Bytes}
use computer_network_course.Voice.Player.{
  Player, Session, Step, arrives, fires, ends, Reach, here, next,
}
use computer_network_course.Voice.Player.Order.{queue}

-- What a player promises: a buffer is put at the end, and the first one is taken when it was played.
pub record Fifo : Type 0 where
  pub waiting : List Bytes
  pub heard : List Bytes

pub data Event : Type 0 where
  put take : Bytes → Event

pub data Act : Event → Fifo → Fifo → Type 0 where
  puts : (f : Fifo) (b : Bytes) → Act (put b) f (record f { waiting = f.waiting ++ b ∷ [] })
  takes :
      (b : Bytes) (rest heard : List Bytes)
      → Act
          (take b)
          (record { waiting = b ∷ rest; heard = heard })
          (record { waiting = rest; heard = heard ++ b ∷ [] })

-- The events in the order in which they happen.
pub data Acts (f : Fifo) : List Event → Fifo → Type 0 where
  none_yet : Acts f [] f
  then_act :
      {g h : Fifo} {events : List Event} {e : Event}
      → Acts f events g
      → Act e g h
      → Acts f (events ++ e ∷ []) h

abbrev pub view : Session → Fifo
view s = record { waiting = queue s.player; heard = s.played }

-- What a step of the player is for the queue: an arrival, the end of a buffer, or nothing.
abbrev pub event_of : {s u : Session} → Step s u → List Event
event_of (arrives s b) = put b ∷ []
event_of (fires s n e) = []
event_of (ends s b e) = take b ∷ []

abbrev pub events_of : {s : Session} → Reach s → List Event
events_of here = []
events_of (next r st) = events_of r ++ event_of st
