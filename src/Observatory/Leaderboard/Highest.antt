-- ===== src/Observatory/Leaderboard/Highest.antt =====
-- The leaderboard of internal/observatory/leaderboard.go holds the packages with the most reach.
use keyholders.Base.{
  ℕ, zero, suc, ◌≤◌, ◌<◌, ◌≡◌, refl, ◌⊎◌, In-cons_of, ◌&&◌, ltb, inl, inr, Bool-cases, List, [],
  ◌∷◌, In, In-sort_by, In-cons, All, All-In, All-insert_by, All-weaken, Table, length, take,
  insert_by, sort_by, arith,
}
use keyholders.Sketch.Exact.{Sketch}
use keyholders.Observatory.Leaderboard.{LeaderboardEntry, ranks_before, entries, rank, leaderboard}

-- No entry has more reach than one before it.
abbrev Falling : List LeaderboardEntry → Type 0
Falling [] = Unit
Falling (e ∷ es) = All (λ o. o.kri ≤ e.kri) es × Falling es

insert_by-Falling :
    (e : LeaderboardEntry) (es : List LeaderboardEntry)
    → Falling es
    → Falling (insert_by ranks_before e es)
insert_by-Falling e [] h = (tt, tt)
insert_by-Falling e (f ∷ es) h = elim (Bool-cases (ranks_before f e)) [
  | inl later ↦ rw later (
    All-insert_by (λ (o : LeaderboardEntry). o.kri ≤ f.kri) ranks_before e es (ground arith) h.0,
    insert_by-Falling e es h.1,
  )
  | inr here ↦
      let le : f.kri ≤ e.kri = ground arith in
      rw here (
        (
          le,
          All-weaken (λ (o : LeaderboardEntry). o.kri ≤ f.kri)
              (λ (o : LeaderboardEntry). o.kri ≤ e.kri) es (λ o l. omega arith) h.0,
        ),
        h,
      )
]

sort_by-Falling : (es : List LeaderboardEntry) → Falling (sort_by ranks_before es)
sort_by-Falling [] = tt
sort_by-Falling (e ∷ es) = insert_by-Falling e (sort_by ranks_before es) (sort_by-Falling es)

take-Falling :
    (n : ℕ) (es : List LeaderboardEntry) (o : LeaderboardEntry)
    → Falling es
    → In o es
    → In o (take n es) ⊎ All (λ e. o.kri ≤ e.kri) (take n es)
take-Falling zero es o h k = inr tt
take-Falling (suc n) [] o h k = elim k [ ]
take-Falling (suc n) (f ∷ es) o h k = elim (In-cons k) [
  | inl same ↦ inl (In-cons_of (take n es) (inl same))
  | inr j ↦ elim (take-Falling n es o h.1 j) [
    | inl i ↦ inl (In.tail i)
    | inr a ↦ inr (All-In (λ (x : LeaderboardEntry). x.kri ≤ f.kri) j h.0, a)
  ]
]

length-take : (n : ℕ) (es : List LeaderboardEntry) → n < length es → length (take n es) ≡ n
length-take zero es h = refl
length-take (suc n) [] h = absurd (omega arith)
length-take (suc n) (f ∷ es) h = omega (arith, length-take n es (omega arith))

-- The entry of a result is on the board, or the board has its full size and each of its entries has
-- at least as much reach.
pub leaderboard-Highest :
    {S : Type 0} (sk : Sketch S) (results : Table S) (n : ℕ) (o : LeaderboardEntry)
    → In o (entries sk results)
    → In o (leaderboard sk results n)
      ⊎ ((length (leaderboard sk results n) ≡ n)
          × (0 < n)
          × All (λ e. o.kri ≤ e.kri) (leaderboard sk results n))
unfolding leaderboard
leaderboard-Highest sk results n o k =
    let all = rank sk results in
    let ranked = (In-sort_by ranks_before (entries sk results)).1 k in
    elim (Bool-cases (ltb 0 n && ltb n (length all))) [
      | inr whole ↦ rw whole (inl ranked)
      | inl cut ↦
          rw cut (elim (take-Falling n all o (sort_by-Falling (entries sk results)) ranked) [
            | inl i ↦ inl i
            | inr a ↦ inr (length-take n all (ground arith), ground arith, a)
          ])
    ]
