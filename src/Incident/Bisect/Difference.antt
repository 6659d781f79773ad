-- ===== src/Incident/Bisect/Difference.antt =====
-- The dependency diff of internal/incident/bisect.go.
use mathlib.Core.List.{foldl}
use keyholders.Base.{
  Read, ◌≡◌, ◌↔◌, sym, ap, ◌∙◌, Bool, true, false, ◌||◌, inl, inr, Bool-cases, Option-cases, List,
  [], ◌∷◌, some, In, In-cons, In-cons_of, Text, Table, text_eq, lookup, put, has_key, has_key-put,
  any, arith,
}
use keyholders.Incident.Bisect.{
  Dependency, DependencyDiff, Outcome, BisectSource, add_range, ranges_of, compare_after,
  removed_from, diff_dependencies,
}

-- Some of the declarations has the name.
abbrev pub declares : List Dependency → Text → Bool
declares deps name = any (λ d. text_eq d.name name) deps

ranges-folded :
    (deps : List Dependency) (m : Table Text) (name : Text)
    → has_key (foldl add_range m deps) name ≡ (has_key m name || declares deps name)
ranges-folded [] m name = ground arith
ranges-folded (d ∷ deps) m name =
    ground
      (arith, ranges-folded deps (put d.name d.range m) name, has_key-put d.name d.range m name)

has_key-ranges_of :
    (deps : List Dependency) (name : Text) → has_key (ranges_of deps) name ≡ declares deps name
unfolding ranges_of lookup
has_key-ranges_of deps name = ranges-folded deps [] name

added_iff :
    (before : Table Text) (after : List Dependency) (d : Dependency)
    → In d (compare_after before after).0 ↔ (In d after × (has_key before d.name ≡ false))
unfolding compare_after
added_iff before [] d = (λ m. elim m [ ], λ (m, h). elim m [ ])
added_iff before (e ∷ after) d = elim (Option-cases (lookup e.name before)) [
  | inl new ↦
      let more : (compare_after before (e ∷ after)).0 ≡ e ∷ (compare_after before after).0 =
        ground (arith, new) in
      rw more (
        λ m. elim (In-cons m) [
          | inl q ↦ (In-cons_of after (inl q), rw q (ground (arith, new)))
          | inr k ↦ let (n, h) = (added_iff before after d).0 k in (In.tail n, h)
        ],
        λ (m, h). elim (In-cons m) [
          | inl q ↦ In-cons_of ((compare_after before after).0) (inl q)
          | inr k ↦ In.tail ((added_iff before after d).1 (k, h))
        ],
      )
  | inr (range, old) ↦
      let same : (compare_after before (e ∷ after)).0 ≡ (compare_after before after).0 =
        ground (arith, old) in
      rw same (
        λ m. let (n, h) = (added_iff before after d).0 m in (In.tail n, h),
        λ (m, h). elim (In-cons m) [
          | inl q ↦ absurd (known q h old)
          | inr k ↦ (added_iff before after d).1 (k, h)
        ],
      )
]
  where
    known :
        {range : Text}
        → d ≡ e
        → has_key before d.name ≡ false
        → lookup e.name before ≡ some range
        → ⊥
    known q h old = ground (arith, ap (λ (d : Dependency). has_key before d.name) q, h, old)

removed_iff :
    (after : Table Text) (before : List Dependency) (d : Dependency)
    → In d (removed_from after before) ↔ (In d before × (has_key after d.name ≡ false))
unfolding removed_from
removed_iff after [] d = (λ m. elim m [ ], λ (m, h). elim m [ ])
removed_iff after (e ∷ before) d = elim (Bool-cases (has_key after e.name)) [
  | inr gone ↦ rw gone (
    λ m. elim (In-cons m) [
      | inl q ↦ (In-cons_of before (inl q), ap (λ (x : Dependency). has_key after x.name) q ∙ gone)
      | inr k ↦ let (n, h) = (removed_iff after before d).0 k in (In.tail n, h)
    ],
    λ (m, h). elim (In-cons m) [
      | inl q ↦ In-cons_of (removed_from after before) (inl q)
      | inr k ↦ In.tail ((removed_iff after before d).1 (k, h))
    ],
  )
  | inl kept ↦ rw kept (
    λ m. let (n, h) = (removed_iff after before d).0 m in (In.tail n, h),
    λ (m, h). elim (In-cons m) [
      | inl q ↦ absurd (still q h kept)
      | inr k ↦ (removed_iff after before d).1 (k, h)
    ],
  )
]
  where
    still : d ≡ e → has_key after d.name ≡ false → has_key after e.name ≡ true → ⊥
    still q h kept = ground (arith, ap (λ (x : Dependency). has_key after x.name) q, h, kept)

-- Where both reads are answered, the diff adds exactly the declarations of the later version whose
-- names the earlier one does not declare, and removes exactly those of the earlier version whose
-- names the later one does not declare.
pub diff_dependencies-Difference :
    (src : BisectSource) (name from to : Text) (before after : List Dependency)
    (diff : DependencyDiff)
    → src.dependencies name from ≡ Read.got before
    → src.dependencies name to ≡ Read.got after
    → diff_dependencies src name from to ≡ Outcome.ok diff
    → (d : Dependency)
    → (In d diff.added ↔ (In d after × (declares before d.name ≡ false)))
      × (In d diff.removed ↔ (In d before × (declares after d.name ≡ false)))
unfolding diff_dependencies
diff_dependencies-Difference src name from to before after diff a b h d =
    let added : (compare_after (ranges_of before) after).0 ≡ diff.added = ground (arith, a, b, h) in
    let removed : removed_from (ranges_of after) before ≡ diff.removed = ground (arith, a, b, h) in
    (
      rw (sym added, sym (has_key-ranges_of before d.name)) (added_iff (ranges_of before) after d),
      rw (sym removed, sym (has_key-ranges_of after d.name))
          (removed_iff (ranges_of after) before d),
    )
