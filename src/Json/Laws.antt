-- ===== src/Json/Laws.antt =====
-- What a dict answers after a write.
use vibe_coding_harness.Prelude.{String, ◌≡◌, refl, some, none, ◌==◌, eq_iff, arith, if◌then◌else◌}
use vibe_coding_harness.Json.{Json, Fields, end, field, get, put, remove}

pub get-put :
    (j k : String) (v : Json) (d : Fields)
    → get j (put k v d) ≡ (if k == j then some v else get j d)
unfolding get put
get-put j k v end = refl
get-put j k v (field i w d) = ground (arith, eq_iff i j, eq_iff i k, eq_iff k j, get-put j k v d)

pub get-remove :
    (j k : String) (d : Fields) → get j (remove k d) ≡ (if k == j then none else get j d)
unfolding get remove
get-remove j k end = ground arith
get-remove j k (field i w d) = ground (arith, eq_iff i j, eq_iff i k, eq_iff k j, get-remove j k d)
