-- ===== src/Resolve/Windows/Order.antt =====
-- The candidates of internal/resolve/windows.go in publish order.
use keyholders.Base.{
  ◌≤◌, inl, inr, List, [], ◌∷◌, arith, Bool-cases, All, All-insert_by, All-weaken, insert_by,
  sort_by,
}
use keyholders.Resolve.Windows.{Candidate, earlier}

-- Publish times do not fall along the list.
abbrev pub Ascending : List Candidate → Type 0
Ascending [] = Unit
Ascending (c ∷ cs) = All (λ d. c.published ≤ d.published) cs × Ascending cs

Ascending-insert_by :
    (c : Candidate) (cs : List Candidate) → Ascending cs → Ascending (insert_by earlier c cs)
Ascending-insert_by c [] h = (tt, tt)
Ascending-insert_by c (d ∷ cs) h = elim (Bool-cases (earlier d c)) [
  | inr here ↦
      let first : c.published ≤ d.published = ground arith in
      rw here ((first, All-weaken _ _ cs (λ x p. omega arith) h.0), h)
  | inl later ↦
      let first : d.published ≤ c.published = ground arith in
      rw later (All-insert_by _ earlier c cs first h.0, Ascending-insert_by c cs h.1)
]

pub Ascending-sort_by : (cs : List Candidate) → Ascending (sort_by earlier cs)
Ascending-sort_by [] = tt
Ascending-sort_by (c ∷ cs) = Ascending-insert_by c (sort_by earlier cs) (Ascending-sort_by cs)
