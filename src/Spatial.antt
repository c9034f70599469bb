-- ===== src/Spatial.antt =====
-- internal/game/spatial: the grid that answers who is near a position (types.go, hash.go). A cell is
-- a Go map reached through `cells`, so a write to a cell is a write of its entry in `cells`.
pub mod Grid
pub mod Query
use realtime_room_middleware.Base.{
  Bool, ◌||◌, Option, none, some, List, [], ◌∷◌, ◌++◌, String, length, if◌then◌else◌, ◌==◌,
  ℕ_discrete,
}
use realtime_room_middleware.Base.Floats.{Floats}
use realtime_room_middleware.Base.Int.{ℤ, ◌+ℤ◌, ◌-ℤ◌, ints_between}
use realtime_room_middleware.Base.Map.{Map, Key, lookup, insert, delete, string_key}
use realtime_room_middleware.Base.Result.{Result, ok, err}

pub record EntityPosition (F : Type 0) : Type 0 where
  pub x : F
  pub z : F

-- Pos
abbrev pub position_at : {F : Type 0} → F → F → EntityPosition F
position_at x z = record { x = x; z = z }

pub record CellCoord : Type 0 where
  pub x : ℤ
  pub z : ℤ

pub CellCoord-discrete : Discrete CellCoord
CellCoord-discrete = hlevel ℕ_discrete

instance abbrev pub cell_key : Key CellCoord
cell_key = record { dec = CellCoord-discrete }

pub record SpatialConfig (F : Type 0) : Type 0 where
  pub cell_size_m : F
  pub max_world_coord : F

pub record CellEntry (F : Type 0) : Type 0 where
  pub coord : CellCoord
  pub pos : EntityPosition F

abbrev pub Cell : Type 0 → Type 0
Cell F = Map String (EntityPosition F)

pub record GridSpatialHash (F : Type 0) : Type 0 where
  pub cell_size : F
  pub max_world_coord : F
  pub cells : Map CellCoord (Cell F)
  pub entities : Map String (CellEntry F)

-- `nil_cell` is the panic of a write to a missing cell.
pub data SpatialError : Type 0 where
  x_not_finite z_not_finite x_out_of_world z_out_of_world nil_cell : SpatialError

module _ {F : Type 0} where
  -- removeFromCell
  unfoldable pub remove_from_cell :
      String → CellCoord → Map CellCoord (Cell F) → Map CellCoord (Cell F)
  remove_from_cell id coord cells = elim (lookup coord cells) [
    | none ↦ cells
    | some cell ↦
        if length (delete id cell) == 0
        then delete coord cells
        else insert coord (delete id cell) cells
  ]

  -- Remove
  unfoldable pub remove : GridSpatialHash F → String → GridSpatialHash F
  unfolding remove_from_cell
  remove h id = elim (lookup id h.entities) [
    | none ↦ h
    | some entry ↦ record h {
      cells = remove_from_cell id entry.coord h.cells;
      entities = delete id h.entities;
    }
  ]

  abbrev pub entry_pos : Option (CellEntry F) → Option (EntityPosition F)
  entry_pos none = none
  entry_pos (some e) = some e.pos

  -- Get
  abbrev pub get : GridSpatialHash F → String → Option (EntityPosition F)
  get h id = entry_pos (lookup id h.entities)

  -- Clear
  abbrev pub clear : GridSpatialHash F → GridSpatialHash F
  clear h = record h { cells = []; entities = [] }

  abbrev pub or_new : Option (Cell F) → Cell F
  or_new none = []
  or_new (some cell) = cell

  -- The write of an entity to a cell that is made if it is missing.
  add_to_cell : GridSpatialHash F → String → CellCoord → EntityPosition F → GridSpatialHash F
  add_to_cell h id coord p = record h {
    cells = insert coord (insert id p (or_new (lookup coord h.cells))) h.cells;
    entities = insert id (record { coord = coord; pos = p }) h.entities;
  }

  -- The entity stays in its cell.
  move_in_cell :
      GridSpatialHash F
      → String
      → CellCoord
      → EntityPosition F
      → Result SpatialError (GridSpatialHash F)
  move_in_cell h id coord p = elim (lookup coord h.cells) [
    | none ↦ err nil_cell
    | some cell ↦ ok (record h {
      cells = insert coord (insert id p cell) h.cells;
      entities = insert id (record { coord = coord; pos = p }) h.entities;
    })
  ]

  -- Update, once the position is valid.
  unfoldable pub place :
      GridSpatialHash F
      → String
      → CellCoord
      → EntityPosition F
      → Result SpatialError (GridSpatialHash F)
  unfolding add_to_cell move_in_cell
  place h id coord p = elim (lookup id h.entities) [
    | none ↦ ok (add_to_cell h id coord p)
    | some entry ↦ elim (CellCoord-discrete entry.coord coord) [
      | yes _ ↦ move_in_cell h id coord p
      | no _ ↦
          ok (add_to_cell (record h { cells = remove_from_cell id entry.coord h.cells }) id coord p)
    ]
  ]

module _ (fl : Floats) where
  open fl use {
    F32, F64, lit32, to64, is_nan, is_inf, abs, lt_f64, le_f64, le_f32, sub_f32, div_f32, mul_f64,
    add_f64, floor, ceil, int_of,
  }

  -- DefaultSpatialConfig
  abbrev pub default_spatial_config : SpatialConfig F32
  default_spatial_config = record { cell_size_m = lit32 10; max_world_coord = lit32 100000 }

  -- NewGridSpatialHash
  unfoldable pub new_grid_spatial_hash : SpatialConfig F32 → GridSpatialHash F32
  new_grid_spatial_hash config = record {
    cell_size = config.cell_size_m;
    max_world_coord =
        if le_f32 config.max_world_coord (lit32 0)
        then default_spatial_config.max_world_coord
        else config.max_world_coord;
    cells = [];
    entities = [];
  }

  abbrev not_finite : F32 → Bool
  not_finite v = is_nan (to64 v) || is_inf (to64 v)

  abbrev outside : GridSpatialHash F32 → F32 → Bool
  outside h v = lt_f64 (to64 h.max_world_coord) (abs (to64 v))

  -- validatePosition
  unfoldable pub validate_position : GridSpatialHash F32 → EntityPosition F32 → Option SpatialError
  validate_position h p =
      if not_finite p.x
      then some x_not_finite
      else if not_finite p.z
      then some z_not_finite
      else if outside h p.x
      then some x_out_of_world
      else if outside h p.z
      then some z_out_of_world
      else none

  -- toCellCoord
  unfoldable pub to_cell_coord : EntityPosition F32 → F32 → CellCoord
  to_cell_coord p cell_size = record {
    x = int_of (floor (to64 (div_f32 p.x cell_size)));
    z = int_of (floor (to64 (div_f32 p.z cell_size)));
  }

  -- Update
  unfoldable pub update :
      GridSpatialHash F32 → String → EntityPosition F32 → Result SpatialError (GridSpatialHash F32)
  update h id p = elim (validate_position h p) [
    | some e ↦ err e
    | none ↦ place h id (to_cell_coord p h.cell_size) p
  ]

  -- The distance test of QueryRadius.
  unfoldable pub within : EntityPosition F32 → F32 → EntityPosition F32 → Bool
  within p radius q =
      let dx = to64 (sub_f32 p.x q.x) in
      let dz = to64 (sub_f32 p.z q.z) in
      le_f64 (add_f64 (mul_f64 dx dx) (mul_f64 dz dz)) (mul_f64 (to64 radius) (to64 radius))

  -- The innermost loop, over one cell.
  unfoldable pub near_in_cell : (EntityPosition F32 → Bool) → Cell F32 → List String
  near_in_cell near [] = []
  near_in_cell near ((id, q) ∷ cell) =
      let rest = near_in_cell near cell in if near q then id ∷ rest else rest

  -- The loop over `cz`.
  unfoldable pub near_in_column :
      (EntityPosition F32 → Bool) → Map CellCoord (Cell F32) → ℤ → List ℤ → List String
  unfolding near_in_cell
  near_in_column near cells cx [] = []
  near_in_column near cells cx (cz ∷ czs) =
      near_in_cell near (or_new (lookup (record { x = cx; z = cz }) cells))
      ++ near_in_column near cells cx czs

  -- The loop over `cx`.
  unfoldable pub near_in_window :
      (EntityPosition F32 → Bool) → Map CellCoord (Cell F32) → List ℤ → List ℤ → List String
  unfolding near_in_column
  near_in_window near cells [] czs = []
  near_in_window near cells (cx ∷ cxs) czs =
      near_in_column near cells cx czs ++ near_in_window near cells cxs czs

  -- `int(math.Ceil(float64(radius / h.cellSize)))`
  abbrev pub cell_radius : GridSpatialHash F32 → F32 → ℤ
  cell_radius h radius = int_of (ceil (to64 (div_f32 radius h.cell_size)))

  -- QueryRadius
  unfoldable pub query_radius : GridSpatialHash F32 → EntityPosition F32 → F32 → List String
  unfolding near_in_window
  query_radius h p radius = if le_f32 radius (lit32 0) then [] else elim (validate_position h p) [
    | some _ ↦ []
    | none ↦
        let center = to_cell_coord p h.cell_size in
        let r = cell_radius h radius in
        near_in_window (within p radius) h.cells (ints_between (center.x -ℤ r) (center.x +ℤ r))
          (ints_between (center.z -ℤ r) (center.z +ℤ r))
  ]
