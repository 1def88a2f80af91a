-- ===== src/Routing/Ports/Buffer.antt =====
-- A3/port.cpp: the buffer of a port.
use mathlib.Core.Option.{bind}
use computer_network_course.Prelude.{
  ℕ, zero, suc, ◌+◌, ◌≡◌, refl, sym, ap, ◌∙◌, List, [], ◌∷◌, ◌++◌, Option, some, length, append-nil,
  append_assoc, length-append,
}
use computer_network_course.Routing.Ports.{Port, deliver, receive, take_first}

pub deliver_all : List (List ℕ) → Port → Port
deliver_all [] p = p
deliver_all (text ∷ texts) p = deliver_all texts (deliver text p)

cons_received : List ℕ → List (List ℕ) × Port → Option (List (List ℕ) × Port)
cons_received text (texts, p) = some (text ∷ texts, p)

pub receive_all : ℕ → Port → Option (List (List ℕ) × Port)
unfolding cons_received
receive_all zero p = some ([], p)
receive_all (suc n) p = bind (receive p) (λ r. bind (receive_all n r.1) (cons_received r.0))

deliver_all_buffer :
    (texts : List (List ℕ)) (p : Port)
    → deliver_all texts p ≡ record p { buffer = p.buffer ++ texts }
unfolding deliver_all deliver
deliver_all_buffer [] p = ap (λ b. record p { buffer = b }) (sym (append-nil p.buffer))
deliver_all_buffer (text ∷ texts) p =
    deliver_all_buffer texts (deliver text p)
    ∙ ap (λ b. record p { buffer = b }) (append_assoc p.buffer (text ∷ []) texts)

receive_all_buffer :
    (texts : List (List ℕ)) (p : Port)
    → receive_all (length texts) (record p { buffer = texts })
      ≡ some (texts, record p { buffer = [] })
unfolding receive_all receive take_first bind cons_received
receive_all_buffer [] p = refl
receive_all_buffer (text ∷ texts) p =
    ap (λ o. bind o (cons_received text)) (receive_all_buffer texts p)

-- What a port receives is what lay in its buffer and then what was sent to it, all of it and in order.
pub receive_all-deliver_all :
    (texts : List (List ℕ)) (p : Port)
    → receive_all (length p.buffer + length texts) (deliver_all texts p)
      ≡ some (p.buffer ++ texts, record p { buffer = [] })
receive_all-deliver_all texts p =
    ap (λ n. receive_all n (deliver_all texts p)) (sym (length-append p.buffer texts))
    ∙ ap (receive_all (length (p.buffer ++ texts))) (deliver_all_buffer texts p)
    ∙ receive_all_buffer (p.buffer ++ texts) p
