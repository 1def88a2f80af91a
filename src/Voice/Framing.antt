-- ===== src/Voice/Framing.antt =====
-- A1/send.cpp and receive.cpp. A QBuffer is its bytes.
pub mod Delivery
use mathlib.Core.List.{flatten}
use computer_network_course.Prelude.{
  All, Lacks, ◌≡◌, ℕ, zero, suc, ◌-◌, Bool, true, false, ◌||◌, List, [], ◌∷◌, ◌++◌, Option, none,
  some, ◌==◌, if◌then◌else◌, length, take,
}
use computer_network_course.Prelude.Text.{c_str}

abbrev pub Bytes : Type 0
Bytes = List ℕ

abbrev pub newline : ℕ
newline = 10

-- `send::startSending`: what is left of the queue, and what is written.
unfoldable start_sending : List Bytes → List Bytes × Bytes
start_sending [] = ([], newline ∷ [])
start_sending (b ∷ queue) = (queue, b ++ newline ∷ [])

-- What `Start` uses of Boost.Asio: `read_until` into an empty string, from a socket that is the list of
-- what its reads return. `none` is a stream that ends first. Documented: it reads until a newline is in
-- the string, and leaves there what that read brought behind the newline too.
pub record Asio : Type 0 where
  pub read_until : List Bytes → Option (Bytes × List Bytes)
  pub read_until_parts :
      (parts : List Bytes) (last behind : Bytes) (rest : List Bytes)
      → All (Lacks newline) parts
      → Lacks newline last
      → read_until (parts ++ (last ++ newline ∷ behind) ∷ rest)
        ≡ some (flatten parts ++ (last ++ newline ∷ behind), rest)

-- The string without its last byte, as a C string, unless it starts with the newline.
unfoldable pub keep_data : Bytes → List Bytes → List Bytes
keep_data [] buffers = buffers
keep_data (b ∷ data_rest) buffers =
    if b == newline
    then buffers
    else buffers ++ c_str (take (length (b ∷ data_rest) - 1) (b ∷ data_rest)) ∷ []

-- `receive::Start`: the stream behind it and the queue of what was received.
start_read : Option (Bytes × List Bytes) → List Bytes → Option (List Bytes × List Bytes)
start_read none buffers = none
start_read (some (got, chunks)) buffers = some (chunks, keep_data got buffers)

module _ (asio : Asio) where
  unfoldable pub start : List Bytes → List Bytes → Option (List Bytes × List Bytes)
  unfolding start_read
  start chunks buffers = start_read (asio.read_until chunks) buffers
