-- ===== src/Lockfile/Words/Trim.antt =====
-- The trims of internal/lockfile leave a text alone that has nothing to trim.
use keyholders.Base.{
  ℕ, ◌≡◌, refl, ap, ◌∙◌, Bool, true, false, ◌||◌, [], ◌∷◌, ◌++◌, Text, All, arith, trim_space,
  is_space, true, sym, subst, trim_left, trim_right,
}
use keyholders.Base.Cutting.{Spaceless, trim_space-Spaceless}
use keyholders.Lockfile.Words.{trim_start, trim_end, is_quote, trim_quotes, trim_suffix}

-- No byte of the text passes the test.
abbrev pub Without : (ℕ → Bool) → Text → Type 0
Without p s = All (λ c. p c ≡ false) s

trim_start-Without : (p : ℕ → Bool) (s : Text) → Without p s → trim_start p s ≡ s
unfolding trim_start
trim_start-Without p [] h = refl
trim_start-Without p (c ∷ s) h = ground (arith, h.0)

trim_end-Without : (p : ℕ → Bool) (s : Text) → Without p s → trim_end p s ≡ s
unfolding trim_end
trim_end-Without p [] h = refl
trim_end-Without p (c ∷ []) h = ground (arith, h.0)
trim_end-Without p (c ∷ d ∷ s) h = rw (trim_end-Without p (d ∷ s) h.1, trim_end) refl

pub trim_suffix-append : (c : ℕ) (s : Text) → trim_suffix c (s ++ c ∷ []) ≡ s
unfolding trim_suffix
trim_suffix-append c [] = ground arith
trim_suffix-append c (d ∷ []) = ground arith
trim_suffix-append c (d ∷ e ∷ s) = ap (λ r. d ∷ r) (trim_suffix-append c (e ∷ s))

-- A byte that `trim_space` and `trim_quotes` may take away.
abbrev pub is_margin : ℕ → Bool
is_margin c = is_space c || is_quote c

margin-space : (s : Text) → Without is_margin s → Spaceless s
margin-space [] h = tt
margin-space (c ∷ s) h = (ground (arith, h.0), margin-space s h.1)

margin-quote : (s : Text) → Without is_margin s → Without is_quote s
margin-quote [] h = tt
margin-quote (c ∷ s) h = (ground (arith, h.0), margin-quote s h.1)

pub trim_quotes-Without : (s : Text) → Without is_quote s → trim_quotes s ≡ s
trim_quotes-Without s h =
    ap (trim_end is_quote) (trim_start-Without is_quote s h) ∙ trim_end-Without is_quote s h

pub trimmed : (s : Text) → Without is_margin s → trim_quotes (trim_space s) ≡ s
trimmed s h =
    ap trim_quotes (trim_space-Spaceless s (margin-space s h))
    ∙ trim_quotes-Without s (margin-quote s h)

pub Without-weaken :
    (p q : ℕ → Bool) (s : Text) → ((c : ℕ) → p c ≡ false → q c ≡ false) → Without p s → Without q s
Without-weaken p q [] f h = tt
Without-weaken p q (c ∷ s) f h = (f c h.0, Without-weaken p q s f h.1)

-- Every byte of the text passes the test.
abbrev pub Only : (ℕ → Bool) → Text → Type 0
Only p s = All (λ c. p c ≡ true) s

pub trim_start-Only :
    (p : ℕ → Bool) (before : Text) (c : ℕ) (s : Text)
    → Only p before
    → p c ≡ false
    → trim_start p (before ++ c ∷ s) ≡ c ∷ s
unfolding trim_start
trim_start-Only p [] c s q h = ground (arith, h)
trim_start-Only p (b ∷ before) c s q h = ground (arith, q.0, trim_start-Only p before c s q.1 h)

trim_end-nothing : (p : ℕ → Bool) (after : Text) → Only p after → trim_end p after ≡ []
unfolding trim_end
trim_end-nothing p [] q = refl
trim_end-nothing p (c ∷ after) q = rw (trim_end, trim_end-nothing p after q.1, q.0) refl

pub trim_end-Only :
    (p : ℕ → Bool) (s after : Text) → Only p after → trim_end p (s ++ after) ≡ trim_end p s
unfolding trim_end
trim_end-Only p [] after q = trim_end-nothing p after q
trim_end-Only p (c ∷ s) after q = rw (trim_end, trim_end-Only p s after q) refl

-- Runs of quotes around a text that has none itself.
pub unquoted :
    (before after : Text) (c : ℕ) (s : Text)
    → Only is_quote before
    → Only is_quote after
    → Without is_quote (c ∷ s)
    → trim_quotes (before ++ ((c ∷ s) ++ after)) ≡ c ∷ s
unquoted before after c s b a h =
    ap (trim_end is_quote) (trim_start-Only is_quote before c (s ++ after) b h.0)
    ∙ (trim_end-Only is_quote (c ∷ s) after a ∙ trim_end-Without is_quote (c ∷ s) h)

-- A text without a space at its end stays one behind another text.
trim_right-cons :
    (s : Text) (d : ℕ) (r : Text)
    → trim_right (d ∷ r) ≡ d ∷ r
    → trim_right (s ++ d ∷ r) ≡ s ++ d ∷ r
unfolding trim_right
trim_right-cons [] d r h = h
trim_right-cons (c ∷ []) d r h = rw (trim_right, h) refl
trim_right-cons (c ∷ x ∷ s) d r h = rw (trim_right-cons (x ∷ s) d r h, trim_right) refl

pub trim_right-append :
    (s u : Text) → trim_right s ≡ s → trim_right u ≡ u → trim_right (s ++ u) ≡ s ++ u
trim_right-append s [] h k = subst (λ r. trim_right r ≡ r) (sym (append_nil s)) h
  where
    append_nil : (r : Text) → r ++ [] ≡ r
    append_nil [] = refl
    append_nil (c ∷ r) = ap (λ w. c ∷ w) (append_nil r)
trim_right-append s (d ∷ u) h k = trim_right-cons s d u k

pub trim_space-stop :
    (c : ℕ) (s : Text)
    → is_space c ≡ false
    → trim_right (c ∷ s) ≡ c ∷ s
    → trim_space (c ∷ s) ≡ c ∷ s
unfolding trim_space trim_left
trim_space-stop c s h k = ap trim_right (stop h) ∙ k
  where
    stop : is_space c ≡ false → trim_left (c ∷ s) ≡ c ∷ s
    stop h = unfold trim_left in ground (arith, h)
