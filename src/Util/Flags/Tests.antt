-- ===== src/Util/Flags/Tests.antt =====
-- util/genie_flag_utils.ts: flags that are read and written.
use genie_cloud.Base.{◌≡◌, refl, true, false, [], ◌∷◌, codes, insert, split, join, text_eq}
use genie_cloud.Util.Flags.{parse_flags, make_flags}

flags :
    (make_flags (parse_flags (codes "a,bc,a")) ≡ codes "a,bc")
    × (make_flags ((codes "x", false) ∷ (codes "y", true) ∷ []) ≡ codes "y")
unfolding parse_flags make_flags insert split join text_eq
flags = (refl, refl)
