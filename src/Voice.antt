-- ===== src/Voice.antt =====
-- A1: one direction of a voice call. `Framing` has the messages of send.cpp and receive.cpp, `Player`
-- audioplay.cpp, `Recorder` audiorec.cpp and the start in main.cpp.
pub mod Framing
pub mod Player
pub mod Recorder
mod Tests
