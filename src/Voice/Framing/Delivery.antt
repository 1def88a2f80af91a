-- ===== src/Voice/Framing/Delivery.antt =====
-- A1: what arrives of what was sent.
use mathlib.Core.List.{flatten}
use mathlib.Core.Option.{bind}
use computer_network_course.Prelude.{
  ℕ, zero, suc, ◌-◌, ◌≡◌, ◌≢◌, refl, sym, ap, ◌∙◌, arith, List, [], ◌∷◌, ◌++◌, append-nil,
  append_assoc, Option, some, ◌==◌, length, length-append, take-append, All, All-append, Lacks, map,
  if_false,
}
use computer_network_course.Prelude.Text.{c_str, c_str-Lacks}
use computer_network_course.Voice.Framing.{
  Bytes, newline, start_sending, Asio, keep_data, start_read, start,
}

-- A message, as the reads bring it: `parts` before the last one, and that one without its newline.
pub record Cut : Type 0 where
  pub parts : List Bytes
  pub last : Bytes

abbrev pub message : Cut → Bytes
message c = flatten c.parts ++ c.last

abbrev pub reads : List Cut → List Bytes
reads [] = []
reads (c ∷ cuts) = c.parts ++ (c.last ++ newline ∷ []) ∷ reads cuts

abbrev pub IsClean : Cut → Type 0
IsClean c = All (Lacks newline) c.parts × Lacks newline c.last × Lacks 0 (message c)

-- The buffers that are kept of messages.
abbrev pub nonempty : List Bytes → List Bytes
nonempty [] = []
nonempty ([] ∷ ms) = nonempty ms
nonempty ((x ∷ m) ∷ ms) = (x ∷ m) ∷ nonempty ms

keep_one :
    (x : ℕ) (m : Bytes) (buffers : List Bytes)
    → x ≢ newline
    → Lacks 0 (x ∷ m)
    → keep_data ((x ∷ m) ++ newline ∷ []) buffers ≡ buffers ++ (x ∷ m) ∷ []
unfolding keep_data
keep_one x m buffers h z =
    if_false _ _ (x == newline) (ground arith)
    ∙ ap (λ d. buffers ++ c_str d ∷ [])
        (take-append (length (x ∷ (m ++ newline ∷ [])) - 1) (x ∷ m) (newline ∷ []) count)
    ∙ ap (λ d. buffers ++ d ∷ []) (c_str-Lacks (x ∷ m) z)
  where
    count : length (x ∷ m) ≡ length (x ∷ (m ++ newline ∷ [])) - 1
    count = omega (arith, length-append m (newline ∷ []))

keep_message :
    (m : Bytes) (buffers : List Bytes)
    → Lacks newline m
    → Lacks 0 m
    → keep_data (m ++ newline ∷ []) buffers ≡ buffers ++ nonempty (m ∷ [])
unfolding keep_data
keep_message [] buffers h z = sym (append-nil buffers)
keep_message (x ∷ m) buffers (hx, h) z = keep_one x m buffers hx z

flatten-Lacks : (parts : List Bytes) → All (Lacks newline) parts → Lacks newline (flatten parts)
unfolding flatten
flatten-Lacks [] h = tt
flatten-Lacks (p ∷ parts) (hp, h) =
    All-append (λ b. b ≢ newline) p (flatten parts) hp (flatten-Lacks parts h)

-- What the sender writes in so many ticks of its timer.
abbrev pub sent : ℕ → List Bytes → List Bytes
unfolding start_sending
sent zero queue = []
sent (suc n) queue = let (rest, text) = start_sending queue in text ∷ sent n rest

reads-sent :
    (cuts : List Cut) → flatten (reads cuts) ≡ flatten (sent (length cuts) (map message cuts))
unfolding flatten start_sending
reads-sent [] = refl
reads-sent (c ∷ cuts) =
    flatten_append c.parts ((c.last ++ newline ∷ []) ∷ reads cuts)
    ∙ ap (λ x. flatten c.parts ++ ((c.last ++ newline ∷ []) ++ x)) (reads-sent cuts)
    ∙ sym (
        append_assoc (flatten c.parts) (c.last ++ newline ∷ [])
          (flatten (sent (length cuts) (map message cuts))))
    ∙ ap (λ z. z ++ flatten (sent (length cuts) (map message cuts)))
        (sym (append_assoc (flatten c.parts) c.last (newline ∷ [])))
  where
    flatten_append : (xs ys : List Bytes) → flatten (xs ++ ys) ≡ flatten xs ++ flatten ys
    flatten_append [] ys = refl
    flatten_append (x ∷ xs) ys =
        ap (◌++◌ x) (flatten_append xs ys) ∙ sym (append_assoc x (flatten xs) (flatten ys))

nonempty_append :
    (m : Bytes) (ms : List Bytes) → nonempty (m ∷ ms) ≡ nonempty (m ∷ []) ++ nonempty ms
nonempty_append [] ms = refl
nonempty_append (x ∷ m) ms = refl

-- The other end, with what it uses of Boost.Asio.
module _ (asio : Asio) where
  start_cut :
      (c : Cut) (rest buffers : List Bytes)
      → IsClean c
      → start asio (c.parts ++ (c.last ++ newline ∷ []) ∷ rest) buffers
        ≡ some (rest, buffers ++ nonempty (message c ∷ []))
  unfolding start start_read
  start_cut c rest buffers (hp, hl, z) =
      ap (λ o. start_read o buffers) (asio.read_until_parts c.parts c.last [] rest hp hl)
      ∙ ap (λ d. some (rest, keep_data d buffers))
          (sym (append_assoc (flatten c.parts) c.last (newline ∷ [])))
      ∙ ap (λ b. some (rest, b))
          (keep_message (message c) buffers
            (All-append (λ b. b ≢ newline) (flatten c.parts) c.last (flatten-Lacks c.parts hp) hl)
            z)

  -- What the receiver has after so many of its own.
  unfoldable pub received : ℕ → List Bytes → List Bytes → Option (List Bytes × List Bytes)
  received zero chunks buffers = some (chunks, buffers)
  received (suc n) chunks buffers = bind (start asio chunks buffers) (λ r. received n r.0 r.1)

  received_reads :
      (cuts : List Cut) (buffers : List Bytes)
      → All IsClean cuts
      → received (length cuts) (reads cuts) buffers
        ≡ some ([], buffers ++ nonempty (map message cuts))
  unfolding received bind
  received_reads [] buffers h = ap (λ b. some ([], b)) (sym (append-nil buffers))
  received_reads (c ∷ cuts) buffers (hc, h) =
      ap (λ o. bind o (λ r. received (length cuts) r.0 r.1)) (start_cut c (reads cuts) buffers hc)
      ∙ received_reads cuts (buffers ++ nonempty (message c ∷ [])) h
      ∙ ap (λ b. some ([], b))
          (append_assoc buffers (nonempty (message c ∷ [])) (nonempty (map message cuts))
            ∙ ap (◌++◌ buffers) (sym (nonempty_append (message c) (map message cuts))))

  -- Recorded buffers with no newline and no zero byte, written one a tick, arrive in order and unchanged
  -- but for empty ones, which are left out, in whatever pieces each is read, as long as no read goes over
  -- the end of a message.
  pub voice_delivered :
      (cuts : List Cut) (buffers : List Bytes)
      → All IsClean cuts
      → (flatten (reads cuts) ≡ flatten (sent (length cuts) (map message cuts)))
        × (received (length cuts) (reads cuts) buffers
            ≡ some ([], buffers ++ nonempty (map message cuts)))
  voice_delivered cuts buffers h = (reads-sent cuts, received_reads cuts buffers h)

  -- A message and another in one read become one buffer, with the newline between them in it; and a
  -- message that comes in one read with an empty one before it is lost.
  pub coalesced_reads :
      (x : ℕ) (m n : Bytes) (rest buffers : List Bytes)
      → Lacks newline (x ∷ m)
      → Lacks 0 ((x ∷ m) ++ newline ∷ n)
      → (start asio (((x ∷ m) ++ newline ∷ (n ++ newline ∷ [])) ∷ rest) buffers
          ≡ some (rest, buffers ++ ((x ∷ m) ++ newline ∷ n) ∷ []))
        × (start asio ((newline ∷ (n ++ newline ∷ [])) ∷ rest) buffers ≡ some (rest, buffers))
  unfolding start start_read flatten keep_data
  coalesced_reads x m n rest buffers h z = (
    ap (λ o. start_read o buffers) (asio.read_until_parts [] (x ∷ m) (n ++ newline ∷ []) rest tt h)
        ∙ ap (λ t. some (rest, keep_data t buffers))
            (sym (append_assoc (x ∷ m) (newline ∷ n) (newline ∷ [])))
        ∙ ap (λ b. some (rest, b)) (keep_one x (m ++ newline ∷ n) buffers h.0 z),
    ap (λ o. start_read o buffers) (asio.read_until_parts [] [] (n ++ newline ∷ []) rest tt tt),
  )
