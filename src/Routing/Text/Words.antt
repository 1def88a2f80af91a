-- ===== src/Routing/Text/Words.antt =====
-- Splitting a list of codes at a separator of several codes, and taking off its outer spaces.
use computer_network_course.Prelude.{
  ℕ, zero, suc, ◌-◌, ◌<◌, ◌≡◌, ◌≢◌, refl, ap, sym, ◌∙◌, arith, Bool, true, false, ◌&&◌, List, [],
  ◌∷◌, ◌++◌, append_assoc, length, length-append, All-append, Lacks, ◌==◌, leb, if◌then◌else◌,
}

unfoldable pub cons_first : ℕ → List (List ℕ) → List (List ℕ)
cons_first c [] = (c ∷ []) ∷ []
cons_first c (p ∷ ps) = (c ∷ p) ∷ ps

unfoldable pub starts : List ℕ → List ℕ → Bool
starts [] s = true
starts (a ∷ sep) [] = false
starts (a ∷ sep) (x ∷ s) = x == a && starts sep s

-- The number counts the codes of a separator that are still to be skipped.
unfoldable pub scan : ℕ → List ℕ → List ℕ → List (List ℕ)
unfolding starts cons_first
scan skip sep [] = [] ∷ []
scan (suc skip) sep (x ∷ s) = scan skip sep s
scan zero sep (x ∷ s) =
    let rest = scan zero sep s in
    let behind = scan (length sep - 1) sep s in
    if starts sep (x ∷ s) then [] ∷ behind else cons_first x rest

starts_self : (sep s : List ℕ) → starts sep (sep ++ s) ≡ true
unfolding starts
starts_self [] s = refl
starts_self (a ∷ sep) s = ground (arith, starts_self sep s)

-- A separator does not start where its one `c` would have to stand before there is any.
starts_before :
    (pre post v tail : List ℕ) (c : ℕ)
    → Lacks c v
    → length pre < length v
    → starts (pre ++ c ∷ post) (v ++ tail) ≡ false
unfolding starts
starts_before pre post [] tail c h l = absurd (omega arith)
starts_before [] post (y ∷ v) tail c (hy, h) l = ground arith
starts_before (a ∷ pre) post (y ∷ v) tail c (hy, h) l =
    ground (arith, starts_before pre post v tail c h (omega arith))

starts_lacking : (pre post v : List ℕ) (c : ℕ) → Lacks c v → starts (pre ++ c ∷ post) v ≡ false
unfolding starts
starts_lacking [] post [] c h = refl
starts_lacking (a ∷ pre) post [] c h = refl
starts_lacking [] post (y ∷ v) c (hy, h) = ground arith
starts_lacking (a ∷ pre) post (y ∷ v) c (hy, h) = ground (arith, starts_lacking pre post v c h)

scan_skip : (u sep s : List ℕ) → scan (length u) sep (u ++ s) ≡ scan 0 sep s
unfolding scan
scan_skip [] sep s = refl
scan_skip (x ∷ u) sep s = scan_skip u sep s

pub scan_last : (p pre post : List ℕ) (c : ℕ) → Lacks c p → scan 0 (pre ++ c ∷ post) p ≡ p ∷ []
unfolding scan
scan_last [] pre post c h = refl
scan_last (x ∷ p) pre post c (hx, h) =
    rw (starts_lacking pre post (x ∷ p) c (hx, h), scan_last p pre post c h) refl

scan_here : (x : ℕ) (w s : List ℕ) → scan 0 (x ∷ w) ((x ∷ w) ++ s) ≡ [] ∷ scan 0 (x ∷ w) s
unfolding scan
scan_here x w s = rw (starts_self (x ∷ w) s) (ap (◌∷◌ []) (skipped ∙ scan_skip w (x ∷ w) s))
  where
    skipped : scan (suc (length w) - 1) (x ∷ w) (w ++ s) ≡ scan (length w) (x ∷ w) (w ++ s)
    skipped = ap (λ k. scan k (x ∷ w) (w ++ s)) (omega arith)

scan_at :
    (pre post s : List ℕ) (c : ℕ)
    → scan 0 (pre ++ c ∷ post) ((pre ++ c ∷ post) ++ s) ≡ [] ∷ scan 0 (pre ++ c ∷ post) s
scan_at [] post s c = scan_here c post s
scan_at (a ∷ pre) post s c = scan_here a (pre ++ c ∷ post) s

pub scan_cons :
    (p s pre post : List ℕ) (c : ℕ)
    → Lacks c pre
    → Lacks c p
    → scan 0 (pre ++ c ∷ post) (p ++ ((pre ++ c ∷ post) ++ s)) ≡ p ∷ scan 0 (pre ++ c ∷ post) s
unfolding scan
scan_cons [] s pre post c hp h = scan_at pre post s c
scan_cons (x ∷ p) s pre post c hp (hx, h) = rw (no_start, scan_cons p s pre post c hp h) refl
  where
    arranged : ((x ∷ p) ++ pre) ++ (c ∷ (post ++ s)) ≡ (x ∷ p) ++ ((pre ++ c ∷ post) ++ s)
    arranged =
        append_assoc (x ∷ p) pre (c ∷ (post ++ s))
        ∙ ap (◌++◌ (x ∷ p)) (sym (append_assoc pre (c ∷ post) s))

    no_start : starts (pre ++ c ∷ post) (x ∷ (p ++ ((pre ++ c ∷ post) ++ s))) ≡ false
    no_start =
        ap (starts (pre ++ c ∷ post)) (sym arranged)
        ∙ starts_before pre post ((x ∷ p) ++ pre) (c ∷ (post ++ s)) c
            (All-append (λ y. y ≢ c) (x ∷ p) pre (hx, h) hp)
            (omega (arith, length-append (x ∷ p) pre))

-- `trimmed`, for the codes up to the space.
drop_spaces : List ℕ → List ℕ
drop_spaces [] = []
drop_spaces (x ∷ s) = let rest = drop_spaces s in if leb x 32 then rest else x ∷ s

keep_first : ℕ → List ℕ → List ℕ
keep_first x [] = if leb x 32 then [] else x ∷ []
keep_first x (y ∷ rest) = x ∷ y ∷ rest

drop_last_spaces : List ℕ → List ℕ
unfolding keep_first
drop_last_spaces [] = []
drop_last_spaces (x ∷ s) = keep_first x (drop_last_spaces s)

pub trimmed : List ℕ → List ℕ
unfolding drop_spaces
trimmed s = drop_last_spaces (drop_spaces s)

keep_append : (x b : ℕ) (s : List ℕ) → keep_first x (s ++ b ∷ []) ≡ x ∷ (s ++ b ∷ [])
unfolding keep_first
keep_append x b [] = refl
keep_append x b (y ∷ s) = refl

drop_last_append : (s : List ℕ) (b : ℕ) → 32 < b → drop_last_spaces (s ++ b ∷ []) ≡ s ++ b ∷ []
unfolding drop_last_spaces keep_first
drop_last_append [] b h = ground arith
drop_last_append (x ∷ s) b h = ap (keep_first x) (drop_last_append s b h) ∙ keep_append x b s

pub trimmed_space : (s : List ℕ) → trimmed (32 ∷ s) ≡ trimmed s
unfolding trimmed
trimmed_space s = refl

pub trimmed_ends :
    (a b : ℕ) (s : List ℕ) → 32 < a → 32 < b → trimmed (a ∷ (s ++ b ∷ [])) ≡ a ∷ (s ++ b ∷ [])
unfolding trimmed drop_spaces
trimmed_ends a b s ha hb = rw (first a ha) (drop_last_append (a ∷ s) b hb)
  where
    first : (a : ℕ) → 32 < a → leb a 32 ≡ false
    first a h = ground arith
