-- ===== src/Interest.antt =====
-- internal/game/interest: who a viewer can see (manager.go).
use realtime_room_middleware.Base.{List, [], ◌∷◌, String, same, if◌then◌else◌}
use realtime_room_middleware.Base.Floats.{Floats}
use realtime_room_middleware.Spatial.{GridSpatialHash, EntityPosition, query_radius}

pub record InterestConfig (F : Type 0) : Type 0 where
  pub visual_radius_m : F
  pub object_radius_m : F
  pub voice_radius_m : F
  pub full_avatar_radius_m : F
  pub low_lod_radius_m : F

-- The loop that drops the viewer.
unfoldable pub without : String → List String → List String
without viewer [] = []
without viewer (id ∷ ids) =
    let rest = without viewer ids in if same id viewer then rest else id ∷ rest

module _ (fl : Floats) where
  open fl use {F32, lit32}

  -- DefaultInterestConfig
  abbrev pub default_interest_config : InterestConfig F32
  default_interest_config = record {
    visual_radius_m = lit32 30;
    object_radius_m = lit32 30;
    voice_radius_m = lit32 30;
    full_avatar_radius_m = lit32 30;
    low_lod_radius_m = lit32 30;
  }

  -- QueryVisiblePlayers
  unfoldable pub query_visible_players :
      InterestConfig F32 → GridSpatialHash F32 → EntityPosition F32 → String → List String
  unfolding without
  query_visible_players config idx viewer_pos viewer =
      without viewer (query_radius fl idx viewer_pos config.visual_radius_m)
