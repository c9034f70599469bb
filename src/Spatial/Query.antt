-- ===== src/Spatial/Query.antt =====
-- What QueryRadius finds (internal/game/spatial/hash.go), read off the entity index.
use realtime_room_middleware.Base.{
  ℕ, zero, suc, ◌+◌, ◌<◌, ◌≡◌, ◌↔◌, ◌⊎◌, refl, ap, sym, subst, ◌∙◌, Bool, true, false, ◌&&◌, ◌||◌,
  Option, none, some, List, [], ◌∷◌, String, listed, listed-append, ℕ_discrete, arith, ite, inl,
  inr,
}
use realtime_room_middleware.Base.Floats.{Floats}
use realtime_room_middleware.Base.Int.{
  ℤ, pos, negsuc, ◌+ℤ◌, ◌-ℤ◌, ◌≤ℤ◌, ints_between, int_range, pos_part, neg_part,
}
use realtime_room_middleware.Base.Map.{lookup, string_key, Distinct}
use realtime_room_middleware.Spatial.{
  EntityPosition, CellCoord, cell_key, CellEntry, Cell, GridSpatialHash, near_in_cell,
  near_in_column, near_in_window, within, query_radius, validate_position, to_cell_coord,
  cell_radius,
}
use realtime_room_middleware.Spatial.Grid.{Agrees, cell_at, pos_in}

pub ℤ-discrete : Discrete ℤ
ℤ-discrete = hlevel ℕ_discrete

abbrev pub among : ℤ → List ℤ → Bool
among c [] = false
among c (x ∷ xs) = ite (ℤ-discrete x c) true false || among c xs

plus_one : (x : ℤ) → pos_part (x +ℤ pos 1) + neg_part x ≡ pos_part x + neg_part (x +ℤ pos 1) + 1
unfolding ◌+ℤ◌
plus_one (pos n) = ground arith
plus_one (negsuc n) = ground arith

parts_eq : (x y : ℤ) → (x ≡ y) ↔ (pos_part x + neg_part y ≡ pos_part y + neg_part x)
parts_eq (pos m) (pos n) = (λ e. ground arith, λ e. ground arith)
parts_eq (pos m) (negsuc n) = (λ e. ground arith, λ e. ground arith)
parts_eq (negsuc m) (pos n) = (λ e. ground arith, λ e. ground arith)
parts_eq (negsuc m) (negsuc n) = (λ e. ground arith, λ e. ground arith)

among-int_range :
    (lo : ℤ) (n : ℕ) (c : ℤ)
    → (among c (int_range lo n) ≡ true)
      ↔ ((lo ≤ℤ c) × (pos_part c + neg_part lo < pos_part lo + neg_part c + n))
unfolding int_range
among-int_range lo zero c = ground arith
among-int_range lo (suc n) c =
    ground (arith, among-int_range (lo +ℤ pos 1) n c, plus_one lo, parts_eq lo c)

sub_parts :
    (x y : ℤ)
    → pos_part (x -ℤ y) + neg_part x + pos_part y ≡ pos_part x + neg_part y + neg_part (x -ℤ y)
unfolding ◌-ℤ◌
sub_parts x y = ground arith

add_parts :
    (x y : ℤ)
    → pos_part (x +ℤ y) + neg_part x + neg_part y ≡ pos_part x + pos_part y + neg_part (x +ℤ y)
unfolding ◌+ℤ◌
add_parts x y = ground arith

one_part_zero : (x : ℤ) → (pos_part x ≡ 0) ⊎ (neg_part x ≡ 0)
one_part_zero (pos n) = inr refl
one_part_zero (negsuc n) = inl refl

-- The loop `for c := lo; c <= hi; c++` takes exactly the values from lo to hi.
among-ints_between : (lo hi c : ℤ) → (among c (ints_between lo hi) ≡ true) ↔ ((lo ≤ℤ c) × (c ≤ℤ hi))
unfolding ints_between
among-ints_between lo hi c = ground (
  arith,
  among-int_range lo (pos_part (hi -ℤ lo +ℤ pos 1)) c,
  plus_one (hi -ℤ lo),
  sub_parts hi lo,
  one_part_zero (hi -ℤ lo +ℤ pos 1),
)

CellCoord-eq : (a b : CellCoord) → (a ≡ b) ↔ ((a.x ≡ b.x) × (a.z ≡ b.z))
CellCoord-eq a b = (λ e. (cc, cc), λ (p, q). cc)

or_eq : {a b c d : Bool} → a ≡ b → c ≡ d → (a || c) ≡ (b || d)
or_eq p q = cc

module _ {F : Type 0} where
  abbrev found : (EntityPosition F → Bool) → Option (EntityPosition F) → Bool
  found near none = false
  found near (some q) = near q

-- The cell is at most `r` cells from the center, in both directions.
pub record IsAround (center : CellCoord) (r : ℤ) (c : CellCoord) : Type 0 where
  pub x_from : center.x -ℤ r ≤ℤ c.x
  pub x_to : c.x ≤ℤ center.x +ℤ r
  pub z_from : center.z -ℤ r ≤ℤ c.z
  pub z_to : c.z ≤ℤ center.z +ℤ r

module _ (fl : Floats) where
  open fl use {F32, lit32, le_f32}

  not_listed :
      (near : EntityPosition F32 → Bool) (id : String) (cell : Cell F32)
      → lookup id cell ≡ none
      → listed id (near_in_cell fl near cell) ≡ false
  unfolding near_in_cell lookup
  not_listed near id [] e = refl
  not_listed near id ((j, q) ∷ cell) e = ground (arith, not_listed near id cell)

  listed-near_in_cell :
      (near : EntityPosition F32 → Bool) (id : String) (cell : Cell F32)
      → Distinct cell
      → listed id (near_in_cell fl near cell) ≡ found near (lookup id cell)
  unfolding near_in_cell lookup
  listed-near_in_cell near id [] d = refl
  listed-near_in_cell near id ((j, q) ∷ cell) d =
      ground (arith, listed-near_in_cell near id cell d.1, not_listed near id cell)

  -- Whether an entity with that entry is found in the cells of the column.
  abbrev in_column : (EntityPosition F32 → Bool) → ℤ → List ℤ → Option (CellEntry F32) → Bool
  in_column near cx czs none = false
  in_column near cx czs (some e) =
      near e.pos && ite (ℤ-discrete cx e.coord.x) (among e.coord.z czs) false

  abbrev in_window : (EntityPosition F32 → Bool) → List ℤ → List ℤ → Option (CellEntry F32) → Bool
  in_window near cxs czs none = false
  in_window near cxs czs (some e) = near e.pos && among e.coord.x cxs && among e.coord.z czs

  column_step :
      (near : EntityPosition F32 → Bool) (cx cz : ℤ) (czs : List ℤ) (o : Option (CellEntry F32))
      → (found near (pos_in o (record { x = cx; z = cz })) || in_column near cx czs o)
        ≡ in_column near cx (cz ∷ czs) o
  column_step near cx cz czs none = refl
  column_step near cx cz czs (some e) =
      ground (arith, CellCoord-eq e.coord (record { x = cx; z = cz }))

  listed-near_in_column :
      (near : EntityPosition F32 → Bool) (h : GridSpatialHash F32) (id : String) (cx : ℤ)
      (czs : List ℤ)
      → Agrees h
      → listed id (near_in_column fl near h.cells cx czs)
        ≡ in_column near cx czs (lookup id h.entities)
  unfolding near_in_column
  listed-near_in_column near h id cx [] v = none_in_column (lookup id h.entities)
    where
      none_in_column : (o : Option (CellEntry F32)) → false ≡ in_column near cx [] o
      none_in_column none = refl
      none_in_column (some e) = ground arith
  listed-near_in_column near h id cx (cz ∷ czs) v =
      let cell = cell_at h.cells (record { x = cx; z = cz }) in
      listed-append id (near_in_cell fl near cell) (near_in_column fl near h.cells cx czs)
      ∙ or_eq
          (listed-near_in_cell near id cell (v.distinct (record { x = cx; z = cz }))
            ∙ ap (found near) (v.placed id (record { x = cx; z = cz })))
          (listed-near_in_column near h id cx czs v)
      ∙ column_step near cx cz czs (lookup id h.entities)

  window_step :
      (near : EntityPosition F32 → Bool) (cx : ℤ) (cxs czs : List ℤ) (o : Option (CellEntry F32))
      → (in_column near cx czs o || in_window near cxs czs o) ≡ in_window near (cx ∷ cxs) czs o
  window_step near cx cxs czs none = refl
  window_step near cx cxs czs (some e) = ground arith

  listed-near_in_window :
      (near : EntityPosition F32 → Bool) (h : GridSpatialHash F32) (id : String) (cxs czs : List ℤ)
      → Agrees h
      → listed id (near_in_window fl near h.cells cxs czs)
        ≡ in_window near cxs czs (lookup id h.entities)
  unfolding near_in_window
  listed-near_in_window near h id [] czs v = none_in_window (lookup id h.entities)
    where
      none_in_window : (o : Option (CellEntry F32)) → false ≡ in_window near [] czs o
      none_in_window none = refl
      none_in_window (some e) = ground arith
  listed-near_in_window near h id (cx ∷ cxs) czs v =
      listed-append id (near_in_column fl near h.cells cx czs)
        (near_in_window fl near h.cells cxs czs)
      ∙ or_eq (listed-near_in_column near h id cx czs v) (listed-near_in_window near h id cxs czs v)
      ∙ window_step near cx cxs czs (lookup id h.entities)

  abbrev range : ℤ → ℤ → List ℤ
  range c r = ints_between (c -ℤ r) (c +ℤ r)

  in_window_here :
      (near : EntityPosition F32 → Bool) (center : CellCoord) (r : ℤ) (e : CellEntry F32)
      → near e.pos ≡ true
      → IsAround center r e.coord
      → in_window near (range center.x r) (range center.z r) (some e) ≡ true
  in_window_here near center r e n a =
      let xs = among-ints_between (center.x -ℤ r) (center.x +ℤ r) e.coord.x in
      let zs = among-ints_between (center.z -ℤ r) (center.z +ℤ r) e.coord.z in
      ground (arith, xs.1 (a.x_from, a.x_to), zs.1 (a.z_from, a.z_to))

  in_window_iff :
      (near : EntityPosition F32 → Bool) (center : CellCoord) (r : ℤ) (o : Option (CellEntry F32))
      → (in_window near (range center.x r) (range center.z r) o ≡ true)
        ↔ ((e : CellEntry F32) × (o ≡ some e) × (near e.pos ≡ true) × IsAround center r e.coord)
  in_window_iff near center r none =
      (λ h. absurd (ground arith), λ (e, f, _, _). absurd (ground arith))
  in_window_iff near center r (some e) =
      let xs = among-ints_between (center.x -ℤ r) (center.x +ℤ r) e.coord.x in
      let zs = among-ints_between (center.z -ℤ r) (center.z +ℤ r) e.coord.z in
      (
        λ h. (
          e,
          refl,
          ground arith,
          record {
            x_from = (xs.0 (ground arith)).0;
            x_to = (xs.0 (ground arith)).1;
            z_from = (zs.0 (ground arith)).0;
            z_to = (zs.0 (ground arith)).1;
          },
        ),
        λ (e', f, n, a).
            subst (λ x. in_window near (range center.x r) (range center.z r) x ≡ true) (sym f)
              (in_window_here near center r e' n a),
      )

  -- In a grid whose indexes agree, `QueryRadius` around a valid position with a positive radius finds
  -- exactly the entities that pass its distance test and whose cell is at most
  -- `ceil(radius / cellSize)` cells away from the position's cell, in both directions.
  pub query_radius_iff :
      (h : GridSpatialHash F32) (p : EntityPosition F32) (radius : F32) (id : String)
      → Agrees h
      → le_f32 radius (lit32 0) ≡ false
      → validate_position fl h p ≡ none
      → (listed id (query_radius fl h p radius) ≡ true) ↔ (
          (e : CellEntry F32) × (lookup id h.entities ≡ some e)
          × (within fl p radius e.pos ≡ true)
          × IsAround (to_cell_coord fl p h.cell_size) (cell_radius fl h radius) e.coord)
  unfolding query_radius
  query_radius_iff h p radius id v positive valid =
      let center = to_cell_coord fl p h.cell_size in
      let r = cell_radius fl h radius in
      let all =
        listed-near_in_window (within fl p radius) h id (range center.x r) (range center.z r) v in
      let iff = in_window_iff (within fl p radius) center r (lookup id h.entities) in
      rw (positive, valid, query_radius) (rw all iff)
