-- ===== src/Examples/Texts.antt =====
-- Two user IDs, which are different and not empty.
use realtime_room_middleware.Base.{◌≡◌, ◌≢◌, refl, false, String, same, string_discrete, arith}

abbrev pub ann : String
ann = "ann"

abbrev pub bob : String
bob = "bob"

pub different : (s t : String) → same s t ≡ false → s ≢ t
different s t e p = ground arith

pub ann_named : ann ≢ ""
unfolding string_discrete
ann_named = different ann "" refl

pub bob_not_ann : bob ≢ ann
unfolding string_discrete
bob_not_ann = different bob ann refl

pub bob_named : bob ≢ ""
unfolding string_discrete
bob_named = different bob "" refl

pub ann_not_bob : ann ≢ bob
unfolding string_discrete
ann_not_bob = different ann bob refl
