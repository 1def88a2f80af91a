-- ===== src/Transport/Packet.antt =====
-- Packet.cpp and Constants.cpp of A4/Part1 and A4/Part2, which agree, and what they use of the
-- standard library: decimal output, `getline` and `stoi`. An int is a ℤ. `none` is an exception that
-- nothing catches. The text of a decoded packet is what `token` holds when `decode` returns. `data_` points
-- into that string, which is gone by then: `get_data` has what is read behind it. The programs compare
-- with texts of at most seven bytes, at once.
pub mod Decimal
pub mod RoundTrip
use computer_network_course.Prelude.Text.{codes, c_str}
use computer_network_course.Prelude.Decimal.{digits}
use computer_network_course.Prelude.{
  ℕ, zero, suc, ◌+◌, ◌-◌, ◌*◌, ◌/◌, ◌%◌, ◌^◌, Bool, true, false, ◌&&◌, ◌||◌, List, [], ◌∷◌, ◌++◌,
  Option, none, some, length, ltb, leb, ◌==◌, if◌then◌else◌,
}
use computer_network_course.Prelude.Int.{ℤ, pos, negsuc}

abbrev pub Bytes : Type 0
Bytes = List ℕ

abbrev pub comma : ℕ
comma = b','

abbrev pub newline : ℕ
newline = 10

-- Constants.cpp.
abbrev pub syn : Bytes
syn = codes "SYN"

abbrev pub syn_ack : Bytes
syn_ack = codes "SYN_ACK"

abbrev pub ack : Bytes
ack = codes "ACK"

abbrev pub default_message : Bytes
default_message = codes "Hello"

pub record Packet : Type 0 where
  pub id : ℤ
  pub text : Bytes

-- `ss << n`.
unfoldable pub show_int : ℤ → Bytes
unfolding digits
show_int (pos n) = digits (suc n) n
show_int (negsuc n) = b'-' ∷ digits (suc (suc n)) (suc n)

-- `getline` up to a delimiter: the token, and what is left if the delimiter was met.
pub getline : ℕ → Bytes → Bytes × Option Bytes
getline delim [] = ([], none)
getline delim (c ∷ s) =
    let (token, rest) = getline delim s in if c == delim then ([], some s) else (c ∷ token, rest)

is_space : ℕ → Bool
is_space c = c == 32 || leb 9 c && leb c 13

is_digit : ℕ → Bool
is_digit c = leb b'0' c && leb c b'9'

skip_space : Bytes → Bytes
unfolding is_space
skip_space [] = []
skip_space (c ∷ s) = let rest = skip_space s in if is_space c then rest else c ∷ s

-- The number that the digits at the start spell, behind `acc`.
scan : ℕ → Bytes → ℕ
unfolding is_digit
scan acc [] = acc
scan acc (c ∷ s) = let rest = scan (acc * 10 + (c - b'0')) s in if is_digit c then rest else acc

-- At least one digit is wanted.
magnitude : Bytes → Option ℕ
unfolding scan
magnitude [] = none
magnitude (c ∷ s) = if is_digit c then some (scan 0 (c ∷ s)) else none

-- A value out of an int's range is an exception too.
in_range : Bool → Option ℕ → Option ℤ
in_range negative none = none
in_range false (some n) = if ltb n (2 ^ 31) then some (pos n) else none
in_range true (some zero) = some (pos 0)
in_range true (some (suc n)) = if ltb n (2 ^ 31) then some (negsuc n) else none

signed : Bytes → Option ℤ
unfolding magnitude in_range
signed [] = none
signed (c ∷ s) =
    if c == b'-'
    then in_range true (magnitude s)
    else if c == b'+'
    then in_range false (magnitude s)
    else in_range false (magnitude (c ∷ s))

unfoldable pub stoi : Bytes → Option ℤ
unfolding skip_space signed
stoi s = signed (skip_space s)

unfoldable pub encode : Packet → Bytes
encode p = show_int p.id ++ comma ∷ p.text

-- The second `getline` on a stream that is at its end leaves the token as it was.
second_token : Bytes → Option Bytes → Bytes
unfolding getline
second_token token none = token
second_token token (some rest) = (getline newline rest).0

with_id : Option ℤ → Bytes → Option Packet
with_id none text = none
with_id (some n) text = some (record { id = n; text = text })

unfoldable pub decode : Bytes → Option Packet
unfolding getline second_token with_id
decode s =
    let (token, rest) = getline comma (c_str s) in with_id (stoi token) (second_token token rest)

-- `getData` of a decoded packet, read at once. `token` is gone by then: a text of up to 15 bytes lay in
-- the string object, on the stack, and is taken to be there still; a longer one lay on the heap and was
-- freed, and `freed` says what is found in its place.
unfoldable pub get_data : (Bytes → Bytes) → Packet → Bytes
get_data freed p = if leb (length p.text) 15 then p.text else freed p.text
