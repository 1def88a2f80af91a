-- ===== src/Transport/Packet/RoundTrip.antt =====
-- `Packet::decode` after `Packet::encode`.
use computer_network_course.Prelude.{
  ℕ, ◌≡◌, ◌≢◌, refl, ap, arith, [], ◌∷◌, ◌++◌, none, some, All-append, Lacks,
}
use computer_network_course.Prelude.Text.{c_str, c_str-Lacks, c_str_ends}
use computer_network_course.Transport.Packet.{
  Bytes, Packet, comma, newline, show_int, getline, stoi, encode, decode,
}
use computer_network_course.Transport.Packet.Decimal.{IsInt32, stoi-show_int, show_int-Lacks}

pub getline_found :
    (delim : ℕ) (s rest : Bytes)
    → Lacks delim s
    → getline delim (s ++ delim ∷ rest) ≡ (s, some rest)
unfolding getline
getline_found delim [] rest h = ground arith
getline_found delim (c ∷ s) rest (hc, h) = ground (arith, getline_found delim s rest h)

pub getline_end : (delim : ℕ) (s : Bytes) → Lacks delim s → getline delim s ≡ (s, none)
unfolding getline
getline_end delim [] h = refl
getline_end delim (c ∷ s) (hc, h) = ground (arith, getline_end delim s h)

encode-Lacks : (p : Packet) → Lacks 0 p.text → Lacks 0 (encode p)
unfolding encode
encode-Lacks p h =
    All-append (λ c. c ≢ 0) (show_int p.id) (comma ∷ p.text) (show_int-Lacks p.id 0 (omega arith))
      (omega arith, h)

decode_text :
    (p : Packet) (s : Bytes)
    → c_str s ≡ encode p
    → IsInt32 p.id
    → Lacks newline p.text
    → decode s ≡ some p
unfolding decode encode
decode_text p s e i l =
    rw
      (
        e,
        getline_found comma (show_int p.id) p.text (show_int-Lacks p.id comma (omega arith)),
        stoi-show_int p.id i,
      )
      (ap (λ t. some (record { id = p.id; text = t.0 })) (getline_end newline p.text l))

-- The token of a packet's own text, and of a receive buffer that is zero behind it.
pub decode-encode :
    (p : Packet) (rest : Bytes)
    → IsInt32 p.id
    → Lacks newline p.text
    → Lacks 0 p.text
    → (decode (encode p) ≡ some p) × (decode (encode p ++ 0 ∷ rest) ≡ some p)
decode-encode p rest i l z = (
  decode_text p (encode p) (c_str-Lacks (encode p) (encode-Lacks p z)) i l,
  decode_text p (encode p ++ 0 ∷ rest) (c_str_ends (encode p) rest (encode-Lacks p z)) i l,
)

-- An empty buffer is no packet.
pub decode_empty : decode [] ≡ none
unfolding decode stoi c_str
decode_empty = refl
