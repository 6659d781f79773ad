-- ===== src/Examples/Distances.antt =====
-- internal/typosquat/distance.go at two close names.
use keyholders.Base.{◌≡◌, refl, bytes, text_eq}
use keyholders.Typosquat.Distance.{edit_distance, rows, next_row, fill, count_from, last_of}
use keyholders.Typosquat.Distance.Least.{IsLeast, edit_distance-IsLeast}

edit_distance-cross : edit_distance (bytes "cross-env") (bytes "crossenv") ≡ 1
unfolding edit_distance text_eq rows next_row fill count_from last_of
edit_distance-cross = refl

edit_distance-kitten : edit_distance (bytes "kitten") (bytes "sitting") ≡ 3
unfolding edit_distance text_eq rows next_row fill count_from last_of
edit_distance-kitten = refl

edit_distance-IsLeast_example :
    IsLeast
      (edit_distance (bytes "cross-env") (bytes "crossenv"))
      (bytes "cross-env")
      (bytes "crossenv")
edit_distance-IsLeast_example = edit_distance-IsLeast (bytes "cross-env") (bytes "crossenv")
