-- ===== src/Resolve/Windows/Answer.antt =====
-- `Windows` of internal/resolve/windows.go against what it stands for: at each instant, the highest
-- admitted version published by then.
use keyholders.Base.{
  ℕ, ◌≤◌, ◌<◌, ◌≡◌, ap, ◌∙◌, subst, inl, inr, List, [], ◌∷◌, arith, In, In-cons, In-sort_by, All,
  All-In, sort_by, max,
}
use keyholders.Query.Interval.{open_interval}
use keyholders.Semver.Version.Total.{IsCanonical}
use keyholders.Semver.Range.{Range}
use keyholders.Resolve.Windows.{
  Candidate, Release, Window, earlier, admit, open_windows, clamp, windows,
}
use keyholders.Resolve.Windows.Order.{Ascending, Ascending-sort_by}
use keyholders.Resolve.Windows.Steps.{steps, extend-steps, Takes, Answers, steps-Answers, steps-In}
use keyholders.Resolve.Windows.Clamp.{Tiles, clamp-Clamped, steps-Follows, In-clamp, In-clamp_inv}

-- A property of the candidates holds along the sorted list.
All-sort_by : (P : Candidate → Type 0) (cs : List Candidate) → All P cs → All P (sort_by earlier cs)
All-sort_by P cs h = spread (sort_by earlier cs) (λ c m. All-In P ((In-sort_by earlier cs).0 m) h)
  where
    spread : (xs : List Candidate) → ((c : Candidate) → In c xs → P c) → All P xs
    spread [] f = tt
    spread (x ∷ xs) f = (f x In.head, spread xs (λ c m. f c (In.tail m)))

open_windows-Tiles :
    (cs : List Candidate) (d : ℕ)
    → Ascending cs
    → All (λ c. c.published < open_interval) cs
    → Tiles (clamp (open_windows cs) d)
unfolding open_windows
open_windows-Tiles [] d asc h = unfold clamp in tt
open_windows-Tiles (best ∷ rest) d asc h =
    rw (extend-steps [] best rest)
      ((clamp-Clamped best.published d (steps best rest) (steps-Follows best rest asc h)).tiles)

-- When every admitted version is published before the open end, the windows tile the time from the
-- first on: none is empty, each ends where the next one starts, and the last one is open.
pub windows-Tiles :
    (releases : List Release) (r : Range) (declared_at : ℕ)
    → All (λ c. c.published < open_interval) (admit r releases)
    → Tiles (windows releases r declared_at)
unfolding windows
windows-Tiles releases r declared_at h =
    open_windows-Tiles (sort_by earlier (admit r releases)) declared_at
      (Ascending-sort_by (admit r releases)) (All-sort_by _ (admit r releases) h)

Takes-In :
    {cs ds : List Candidate} {t : ℕ} {c : Candidate}
    → ((x : Candidate) → In x cs → In x ds)
    → ((x : Candidate) → In x ds → In x cs)
    → Takes cs t c
    → Takes ds t c
Takes-In {c = c} f g k = record {
  member = f c k.member;
  published = k.published;
  highest = λ d m l. k.highest d (g d m) l;
}

-- The first candidate in publish order is published by any instant that some candidate is.
first_published :
    (best : Candidate) (rest : List Candidate) (c : Candidate) (t : ℕ)
    → Ascending (best ∷ rest)
    → In c (best ∷ rest)
    → c.published ≤ t
    → best.published ≤ t
first_published best rest c t asc m h = elim (In-cons m) [
  | inl e ↦ subst (λ x. x.published ≤ t) e h
  | inr n ↦ omega (arith, All-In (λ d. best.published ≤ d.published) n asc.0)
]

open_windows-Answers :
    (cs : List Candidate) (d t : ℕ) (c : Candidate)
    → All (λ x. IsCanonical x.version) cs
    → Ascending cs
    → d ≤ t
    → t < open_interval
    → In c cs
    → c.published ≤ t
    → Answers cs (clamp (open_windows cs) d) t
unfolding open_windows
open_windows-Answers [] d t c can asc l end m h = elim m [ ]
open_windows-Answers (best ∷ rest) d t c can asc l end m h =
    let a = steps-Answers best rest t can asc (first_published best rest c t asc m h) end in
    rw (extend-steps [] best rest) (record {
      window = record a.window { from = max a.window.from d };
      member = In-clamp a.window d t (steps best rest) l a.starts a.ends a.member;
      starts = omega (arith, a.starts);
      ends = a.ends;
      taken = a.taken;
      names = a.names;
      takes = a.takes;
    })

-- For admitted versions without leading zeros in their identifiers: at an instant from the
-- declaration on and before the open end, by which some admitted version is published, a window
-- holds the instant and names an admitted version published by then that none of them ranks above.
pub windows-Answers :
    (releases : List Release) (r : Range) (declared_at t : ℕ) (c : Candidate)
    → All (λ x. IsCanonical x.version) (admit r releases)
    → declared_at ≤ t
    → t < open_interval
    → In c (admit r releases)
    → c.published ≤ t
    → Answers (admit r releases) (windows releases r declared_at) t
unfolding windows
windows-Answers releases r declared_at t c can l end m h =
    let cs = admit r releases in
    let a =
      open_windows-Answers (sort_by earlier cs) declared_at t c (All-sort_by _ cs can)
        (Ascending-sort_by cs) l end ((In-sort_by earlier cs).1 m) h in
    record {
      window = a.window;
      member = a.member;
      starts = a.starts;
      ends = a.ends;
      taken = a.taken;
      names = a.names;
      takes =
          Takes-In (λ x k. (In-sort_by earlier cs).0 k) (λ x k. (In-sort_by earlier cs).1 k)
            a.takes;
    }

open_windows-In :
    (cs : List Candidate) (w : Window)
    → In w (open_windows cs)
    → (c : Candidate) × In c cs × (w.version ≡ c.raw) × (w.from ≡ c.published)
unfolding open_windows
open_windows-In [] w m = elim m [ ]
open_windows-In (best ∷ rest) w m = steps-In best rest w (rw (extend-steps [] best rest) at m)

-- A window claims nothing else: it starts at the declaration or later, names an admitted version,
-- and starts when that version was published already.
pub windows_sound :
    (releases : List Release) (r : Range) (declared_at : ℕ) (w : Window)
    → In w (windows releases r declared_at)
    → (declared_at ≤ w.from)
      × ((c : Candidate) × In c (admit r releases) × (w.version ≡ c.raw) × (c.published ≤ w.from))
unfolding windows
windows_sound releases r declared_at w m =
    let cs = admit r releases in
    let (x, k, e) = In-clamp_inv w declared_at (open_windows (sort_by earlier cs)) m in
    let (c, n, v, f) = open_windows-In (sort_by earlier cs) x k in
    let from : w.from ≡ max x.from declared_at = ap (λ y. y.from) e in
    (omega arith, (c, (In-sort_by earlier cs).0 n, ap (λ y. y.version) e ∙ v, omega arith))
