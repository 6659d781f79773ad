-- ===== src/Examples/Squats.antt =====
-- internal/typosquat/candidates.go and internal/typosquat/normalize.go on three names.
use keyholders.Base.{
  ℕ, ◌≡◌, refl, List, [], ◌∷◌, Text, Table, bytes, text_eq, text_lt, lookup, cut, In,
}
use keyholders.Base.Cutting.{Lacks}
use keyholders.Typosquat.Distance.{edit_distance, rows, next_row, fill, count_from, last_of}
use keyholders.Typosquat.Normalize.{normalize, replace_homoglyphs, drop_separators}
use keyholders.Typosquat.Candidates.{Candidate, orient, consider, scan, find}
use keyholders.Typosquat.Candidates.Sound.{IsMatch, find-IsMatch}

normalize-scoped : normalize (bytes "@Types/N0de-vvarn") ≡ bytes "@types/nodewam"
unfolding normalize replace_homoglyphs drop_separators cut
normalize-scoped = refl

abbrev names : List Text
names = bytes "cross-env" ∷ bytes "react" ∷ bytes "crossenv" ∷ []

abbrev ranks : Table ℕ
ranks = (bytes "react", 1) ∷ (bytes "cross-env", 90) ∷ []

abbrev squat : Candidate
squat = record {
  popular = bytes "cross-env";
  lookalike = bytes "crossenv";
  distance = 0;
  popular_rank = 90;
  lookalike_rank = 9223372036854775807;
}

find-names : find names ranks 1 ≡ squat ∷ []
unfolding find scan consider orient normalize replace_homoglyphs drop_separators cut edit_distance
    text_eq text_lt lookup rows next_row fill count_from last_of
find-names = refl

squat-In : In squat (find names ranks 1)
squat-In = rw find-names In.head

find-IsMatch_example : IsMatch names ranks 1 squat
find-IsMatch_example = find-IsMatch names ranks 1 squat squat-In

cross-Lacks : Lacks b'/' (bytes "Cr0ss-env")
cross-Lacks = (refl, (refl, (refl, (refl, (refl, (refl, (refl, (refl, (refl, tt)))))))))
