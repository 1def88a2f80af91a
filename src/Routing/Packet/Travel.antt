-- ===== src/Routing/Packet/Travel.antt =====
-- A3/packet.cpp: a packet's text on its way from one PC to another.
use computer_network_course.Prelude.{
  ℕ, ◌+◌, ◌≡◌, ◌≢◌, refl, sym, ap, ◌∙◌, arith, List, [], ◌∷◌, ◌++◌, some, All, All-append, Lacks,
}
use computer_network_course.Prelude.Text.{same_text}
use computer_network_course.Routing.Text.{QtText}
use computer_network_course.Routing.Packet.{
  Packet, hash, comma, packet, ip, incode, decode, decode_parts, message_kind, increase_buffer_time,
  add_router_to_path, increase_time_in_buffer, aged, forwarded, map_incode,
}

-- The path that is read back: an empty list is written as an empty text, which is one empty part.
abbrev pub seen : List (List ℕ) → List (List ℕ)
seen [] = [] ∷ []
seen (p ∷ ps) = p ∷ ps

module _ (t : QtText) where
  open t use {
    split, join, number, to_int, join_nil, join_one, join_cons, split_last, split_cons,
    to_int-number, number-Lacks,
  }

  split_part :
      {s : List ℕ} {parts : List (List ℕ)} (p : List ℕ) (c : ℕ)
      → Lacks c p
      → split s c ≡ parts
      → split (p ++ c ∷ s) c ≡ p ∷ parts
  split_part {s} p c h e = split_cons p s c h ∙ ap (◌∷◌ p) e

  join-Lacks : (ps : List (List ℕ)) (b c : ℕ) → c ≢ b → All (Lacks b) ps → Lacks b (join ps c)
  join-Lacks [] b c ne h = rw (join_nil c) tt
  join-Lacks (p ∷ []) b c ne (hp, h) = rw (join_one p c) hp
  join-Lacks (p ∷ r ∷ rest) b c ne (hp, h) =
      rw (join_cons p r rest c)
        (All-append (λ x. x ≢ b) p (c ∷ join (r ∷ rest) c) hp (ne, join-Lacks (r ∷ rest) b c ne h))

  split-join : (ps : List (List ℕ)) (c : ℕ) → All (Lacks c) ps → split (join ps c) c ≡ seen ps
  split-join [] c h = ap (λ s. split s c) (join_nil c) ∙ split_last [] c tt
  split-join (p ∷ []) c (hp, h) = ap (λ s. split s c) (join_one p c) ∙ split_last p c hp
  split-join (p ∷ r ∷ rest) c (hp, h) =
      ap (λ s. split s c) (join_cons p r rest c) ∙ split_part p c hp (split-join (r ∷ rest) c h)

  join-seen : (ps : List (List ℕ)) (c : ℕ) → join (seen ps) c ≡ join ps c
  join-seen [] c = join_one [] c ∙ sym (join_nil c)
  join-seen (p ∷ ps) c = refl

  -- The addresses are those of the ids, the message has no `#`, and the path no `#` and no comma.
  pub record IsValid (p : Packet) : Type 0 where
    pub source : p.source_ip ≡ ip t p.source_id
    pub dest : p.dest_ip ≡ ip t p.dest_id
    pub message : Lacks hash p.message
    pub path_hash : All (Lacks hash) p.routers_in_path
    pub path_comma : All (Lacks comma) p.routers_in_path

  pub split-incode :
      (p : Packet)
      → IsValid p
      → split (incode t p) hash
        ≡ message_kind
          ∷ number p.dest_id
          ∷ number p.source_id
          ∷ p.message
          ∷ join p.routers_in_path comma
          ∷ number p.cycle_in_buffer
          ∷ []
  unfolding incode
  split-incode p h =
      split_part message_kind hash (omega arith, tt)
        (split_part (number p.dest_id) hash (number-Lacks p.dest_id hash (omega arith)) (
          split_part (number p.source_id) hash (number-Lacks p.source_id hash (omega arith)) (
            split_part p.message hash h.message (
              split_part (join p.routers_in_path comma) hash
                (join-Lacks p.routers_in_path hash comma (omega arith) h.path_hash)
                (split_last (number p.cycle_in_buffer) hash
                  (number-Lacks p.cycle_in_buffer hash (omega arith)))))))

  -- A valid packet is read back from its text, but an empty path comes back as one empty name.
  pub decode-incode :
      (p : Packet)
      → IsValid p
      → decode t (incode t p) ≡ some (record p { routers_in_path = seen p.routers_in_path })
  unfolding decode decode_parts packet
  decode-incode p h =
      ap (decode_parts t) (split-incode p h)
      ∙ rw (
        to_int-number p.source_id,
        to_int-number p.dest_id,
        to_int-number p.cycle_in_buffer,
        split-join p.routers_in_path comma h.path_comma,
        h.source,
        h.dest,
      )

  -- What one router adds to a packet, and what waiting adds.
  abbrev pub hop : ℕ → Packet → Packet
  hop id p = record p { routers_in_path = seen p.routers_in_path ++ number id ∷ [] }

  abbrev pub waited : ℕ → Packet → Packet
  waited n p = record p { cycle_in_buffer = p.cycle_in_buffer + n }

  seen-All : (c : ℕ) (ps : List (List ℕ)) → All (Lacks c) ps → All (Lacks c) (seen ps)
  seen-All c [] h = (tt, tt)
  seen-All c (p ∷ ps) h = h

  pub hop-IsValid : (id : ℕ) (p : Packet) → IsValid p → IsValid (hop id p)
  hop-IsValid id p h = record {
    source = h.source;
    dest = h.dest;
    message = h.message;
    path_hash =
        All-append (Lacks hash) (seen p.routers_in_path) (number id ∷ [])
          (seen-All hash p.routers_in_path h.path_hash) (number-Lacks id hash (omega arith), tt);
    path_comma =
        All-append (Lacks comma) (seen p.routers_in_path) (number id ∷ [])
          (seen-All comma p.routers_in_path h.path_comma) (number-Lacks id comma (omega arith), tt);
  }

  pub waited-IsValid : (n : ℕ) (p : Packet) → IsValid p → IsValid (waited n p)
  waited-IsValid n p h = record {
    source = h.source;
    dest = h.dest;
    message = h.message;
    path_hash = h.path_hash;
    path_comma = h.path_comma;
  }

  pub forwarded-incode :
      (id : ℕ) (p : Packet) → IsValid p → forwarded t id (incode t p) ≡ some (incode t (hop id p))
  unfolding forwarded map_incode add_router_to_path
  forwarded-incode id p h = ap (map_incode t (add_router_to_path t id)) (decode-incode p h)

  incode-seen :
      (p : Packet) → incode t (record p { routers_in_path = seen p.routers_in_path }) ≡ incode t p
  unfolding incode
  incode-seen p = rw (join-seen p.routers_in_path comma)

  pub increase-incode :
      (p : Packet)
      → IsValid p
      → increase_time_in_buffer t (incode t p) ≡ some (incode t (waited 1 p))
  unfolding increase_time_in_buffer aged map_incode increase_buffer_time same_text
  increase-incode p h =
      ap (λ parts. aged t parts (incode t p)) (split-incode p h)
      ∙ ap (map_incode t (increase_buffer_time t)) (decode-incode p h)
      ∙ ap some (incode-seen (waited 1 p))
