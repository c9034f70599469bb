-- ===== src/Spatial/Grid.antt =====
-- The two indexes of the grid, cells and entities, agree (internal/game/spatial/hash.go).
use realtime_room_middleware.Base.{
  ◌≡◌, refl, sym, subst, Option, none, some, List, [], ◌∷◌, String, length, string_discrete, arith,
  ite, inl, inr, Option-cases,
}
use realtime_room_middleware.Base.Floats.{Floats}
use realtime_room_middleware.Base.Map.{
  Map, lookup, insert, delete, string_key, lookup-insert, lookup-delete, Distinct, insert-Distinct,
  delete-Distinct,
}
use realtime_room_middleware.Base.Result.{Result, ok, err}
use realtime_room_middleware.Spatial.{
  EntityPosition, CellCoord, CellCoord-discrete, cell_key, CellEntry, Cell, GridSpatialHash,
  SpatialError, remove_from_cell, remove, or_new, add_to_cell, move_in_cell, place, update,
  validate_position, to_cell_coord, clear, SpatialConfig, new_grid_spatial_hash,
}

empty_lookup : {V : Type 0} (k : String) (m : Map String V) → length m ≡ 0 → lookup k m ≡ none
unfolding lookup
empty_lookup k [] h = refl
empty_lookup k ((_, _) ∷ m) h = absurd (ground arith)

nothing : {V : Type 0} (k : String) → lookup {V = V} k [] ≡ none
unfolding lookup
nothing k = refl

module _ {F : Type 0} where
  abbrev pub cell_at : Map CellCoord (Cell F) → CellCoord → Cell F
  cell_at cells c = or_new (lookup c cells)

  -- Where the cell at `c` should have an entity with that entry.
  abbrev pub pos_in : Option (CellEntry F) → CellCoord → Option (EntityPosition F)
  pos_in none c = none
  pos_in (some e) c = ite (CellCoord-discrete e.coord c) (some e.pos) none

  -- Every cell has exactly the entities that are recorded there, once each.
  pub record Agrees (h : GridSpatialHash F) : Type 0 where
    pub placed :
        (id : String) (c : CellCoord)
        → lookup id (cell_at h.cells c) ≡ pos_in (lookup id h.entities) c
    pub distinct : (c : CellCoord) → Distinct (cell_at h.cells c)

  lookup-remove_from_cell :
      (id j : String) (coord c : CellCoord) (cells : Map CellCoord (Cell F))
      → lookup j (cell_at (remove_from_cell id coord cells) c)
        ≡ ite
            (CellCoord-discrete coord c)
            (ite (string_discrete id j) none (lookup j (cell_at cells c)))
            (lookup j (cell_at cells c))
  unfolding remove_from_cell
  lookup-remove_from_cell id j coord c cells = elim (Option-cases (lookup coord cells)) [
    | inl e ↦ ground (arith, nothing {V = EntityPosition F} j)
    | inr (cell, e) ↦ ground (
      arith,
      lookup-delete coord c cells,
      lookup-insert coord c (delete id cell) cells,
      lookup-delete id j cell,
      empty_lookup j (delete id cell),
      nothing {V = EntityPosition F} j,
    )
  ]

  remove_from_cell-Distinct :
      (id : String) (coord c : CellCoord) (cells : Map CellCoord (Cell F))
      → Distinct (cell_at cells coord)
      → Distinct (cell_at cells c)
      → Distinct (cell_at (remove_from_cell id coord cells) c)
  unfolding remove_from_cell
  remove_from_cell-Distinct id coord c cells here there = elim (Option-cases (lookup coord cells)) [
    | inl e ↦ rw (e, remove_from_cell) there
    | inr (cell, e) ↦ ground (
      arith,
      lookup-delete coord c cells,
      lookup-insert coord c (delete id cell) cells,
      delete-Distinct id cell,
    )
  ]

  -- Cells that have everything but the entity `id`.
  abbrev Without : String → Map CellCoord (Cell F) → Map String (CellEntry F) → Type 0
  Without id cells entities =
      (j : String) (c : CellCoord)
      → lookup j (cell_at cells c) ≡ ite (string_discrete id j) none (pos_in (lookup j entities) c)

  abbrev entry_at : CellCoord → EntityPosition F → CellEntry F
  entry_at coord p = record { coord = coord; pos = p }

  add_to_cell-Agrees :
      (h : GridSpatialHash F) (id : String) (coord : CellCoord) (p : EntityPosition F)
      → Without id h.cells h.entities
      → ((c : CellCoord) → Distinct (cell_at h.cells c))
      → Agrees (add_to_cell h id coord p)
  unfolding add_to_cell
  add_to_cell-Agrees h id coord p w d = record {
    placed = λ j c. ground (
      arith,
      w j c,
      w j coord,
      lookup-insert coord c (insert id p (or_new (lookup coord h.cells))) h.cells,
      lookup-insert id j p (or_new (lookup coord h.cells)),
      lookup-insert id j (entry_at coord p) h.entities,
    );
    distinct = λ c. ground (
      arith,
      d c,
      lookup-insert coord c (insert id p (or_new (lookup coord h.cells))) h.cells,
      insert-Distinct id p (or_new (lookup coord h.cells)) (d coord),
    );
  }

  moved-Agrees :
      (h : GridSpatialHash F) (id : String) (coord : CellCoord) (p : EntityPosition F)
      (entry : CellEntry F)
      → Agrees h
      → lookup id h.entities ≡ some entry
      → entry.coord ≡ coord
      → Agrees (add_to_cell h id coord p)
  unfolding add_to_cell
  moved-Agrees h id coord p entry v e same_cell = record {
    placed = λ j c. ground (
      arith,
      v.placed j c,
      v.placed j coord,
      lookup-insert coord c (insert id p (or_new (lookup coord h.cells))) h.cells,
      lookup-insert id j p (or_new (lookup coord h.cells)),
      lookup-insert id j (entry_at coord p) h.entities,
    );
    distinct = λ c. ground (
      arith,
      v.distinct c,
      lookup-insert coord c (insert id p (or_new (lookup coord h.cells))) h.cells,
      insert-Distinct id p (or_new (lookup coord h.cells)) (v.distinct coord),
    );
  }

  -- An entity's cell is there, so the write to it does not panic.
  move_in_cell-add :
      (h : GridSpatialHash F) (id : String) (coord : CellCoord) (p : EntityPosition F)
      (entry : CellEntry F)
      → Agrees h
      → lookup id h.entities ≡ some entry
      → entry.coord ≡ coord
      → move_in_cell h id coord p ≡ ok (add_to_cell h id coord p)
  unfolding move_in_cell add_to_cell
  move_in_cell-add h id coord p entry v e same_cell =
      ground (arith, v.placed id coord, nothing {V = EntityPosition F} id)

  remove_from_cell-Without :
      (h : GridSpatialHash F) (id : String) (entry : CellEntry F)
      → Agrees h
      → lookup id h.entities ≡ some entry
      → Without id (remove_from_cell id entry.coord h.cells) h.entities
  remove_from_cell-Without h id entry v e j c =
      ground (arith, v.placed j c, lookup-remove_from_cell id j entry.coord c h.cells)

  -- What a successful update leaves: agreeing indexes, with one entry written.
  pub record Updated (h : GridSpatialHash F) (id : String) (e : CellEntry F)
      (r : Result SpatialError (GridSpatialHash F)) : Type 0 where
    pub grid : GridSpatialHash F
    pub done : r ≡ ok grid
    pub agrees : Agrees grid
    pub entities : grid.entities ≡ insert id e h.entities
    pub same_size : grid.cell_size ≡ h.cell_size

  absent-Without :
      (h : GridSpatialHash F) (id : String)
      → Agrees h
      → lookup id h.entities ≡ none
      → Without id h.cells h.entities
  absent-Without h id v e j c = ground (arith, v.placed j c)

  added_entry :
      (g : GridSpatialHash F) (id : String) (coord : CellCoord) (p : EntityPosition F)
      → (add_to_cell g id coord p).entities ≡ insert id (entry_at coord p) g.entities
  unfolding add_to_cell
  added_entry g id coord p = refl

  kept_size :
      (g : GridSpatialHash F) (id : String) (coord : CellCoord) (p : EntityPosition F)
      → (add_to_cell g id coord p).cell_size ≡ g.cell_size
  unfolding add_to_cell
  kept_size g id coord p = refl

  place-Updated :
      (h : GridSpatialHash F) (id : String) (coord : CellCoord) (p : EntityPosition F)
      → Agrees h
      → Updated h id (entry_at coord p) (place h id coord p)
  unfolding place
  place-Updated h id coord p v = elim (Option-cases (lookup id h.entities)) [
    | inl e ↦ record {
      grid = add_to_cell h id coord p;
      done = rw (e, place) refl;
      agrees = add_to_cell-Agrees h id coord p (absent-Without h id v e) v.distinct;
      entities = added_entry h id coord p;
      same_size = kept_size h id coord p;
    }
    | inr (entry, e) ↦ elim (CellCoord-discrete entry.coord coord) [
      | yes same_cell ↦ record {
        grid = add_to_cell h id coord p;
        done = ground (arith, move_in_cell-add h id coord p entry v e same_cell);
        agrees = moved-Agrees h id coord p entry v e same_cell;
        entities = added_entry h id coord p;
        same_size = kept_size h id coord p;
      }
      | no other_cell ↦
          let freed = record h { cells = remove_from_cell id entry.coord h.cells } in
          record {
            grid = add_to_cell freed id coord p;
            done = ground arith;
            agrees =
                add_to_cell-Agrees freed id coord p (remove_from_cell-Without h id entry v e) (λ c.
                  remove_from_cell-Distinct id entry.coord c h.cells (v.distinct entry.coord)
                    (v.distinct c));
            entities = added_entry freed id coord p;
            same_size = kept_size freed id coord p;
          }
    ]
  ]

  pub remove-Agrees : (h : GridSpatialHash F) (id : String) → Agrees h → Agrees (remove h id)
  unfolding remove
  remove-Agrees h id v = elim (Option-cases (lookup id h.entities)) [
    | inl e ↦ rw (e, remove) v
    | inr (entry, e) ↦
        rw (e, remove)
          (record {
            placed = λ j c.
                ground (
                  arith,
                  remove_from_cell-Without h id entry v e j c,
                  lookup-delete id j h.entities,
                );
            distinct = λ c.
                remove_from_cell-Distinct id entry.coord c h.cells (v.distinct entry.coord)
                  (v.distinct c);
          })
  ]

-- A call that writes the index.
pub data GridCall (F : Type 0) : Type 0 where
  puts : String → EntityPosition F → GridCall F
  drops : String → GridCall F
  clears : GridCall F

module _ (fl : Floats) where
  open fl use {F32}

  -- A rejected position leaves the index as it was.
  abbrev settle :
      GridSpatialHash F32 → Result SpatialError (GridSpatialHash F32) → GridSpatialHash F32
  settle h (ok h') = h'
  settle h (err _) = h

  unfoldable pub after : GridSpatialHash F32 → GridCall F32 → GridSpatialHash F32
  after h (puts id p) = settle h (update fl h id p)
  after h (drops id) = remove h id
  after h clears = clear h

  unfoldable pub run : GridSpatialHash F32 → List (GridCall F32) → GridSpatialHash F32
  unfolding after
  run h [] = h
  run h (c ∷ cs) = run (after h c) cs

  -- In a grid whose indexes agree, `Update` to a valid position succeeds (the write to the entity's
  -- cell finds the cell), writes the entity's entry and no other, and leaves indexes that agree.
  pub update-Updated :
      (h : GridSpatialHash F32) (id : String) (p : EntityPosition F32)
      → Agrees h
      → validate_position fl h p ≡ none
      → Updated h id (record { coord = to_cell_coord fl p h.cell_size; pos = p }) (update fl h id p)
  unfolding update
  update-Updated h id p v e =
      rw (e, update) (place-Updated h id (to_cell_coord fl p h.cell_size) p v)

  settle-Agrees :
      (h : GridSpatialHash F32) (id : String) (p : EntityPosition F32)
      → Agrees h
      → Agrees (settle h (update fl h id p))
  unfolding update
  settle-Agrees h id p v = elim (Option-cases (validate_position fl h p)) [
    | inl e ↦
        let u = update-Updated h id p v e in subst (λ r. Agrees (settle h r)) (sym u.done) u.agrees
    | inr (x, e) ↦ rw (e, update) v
  ]

  after-Agrees : (h : GridSpatialHash F32) (c : GridCall F32) → Agrees h → Agrees (after h c)
  unfolding after lookup
  after-Agrees h (puts id p) v = settle-Agrees h id p v
  after-Agrees h (drops id) v = remove-Agrees h id v
  after-Agrees h clears v = record {
    placed = λ j c. ground (arith, nothing {V = EntityPosition F32} j);
    distinct = λ c. tt;
  }

  pub run-Agrees_from :
      (h : GridSpatialHash F32) (cs : List (GridCall F32)) → Agrees h → Agrees (run h cs)
  unfolding run
  run-Agrees_from h [] v = v
  run-Agrees_from h (c ∷ cs) v = run-Agrees_from (after h c) cs (after-Agrees h c v)

  -- After any calls on a new grid, its two indexes agree: a cell holds an entity, at a position,
  -- exactly if the entity's entry names that cell and that position, and no entity twice.
  pub run-Agrees :
      (config : SpatialConfig F32) (cs : List (GridCall F32))
      → Agrees (run (new_grid_spatial_hash fl config) cs)
  unfolding new_grid_spatial_hash lookup
  run-Agrees config cs =
      run-Agrees_from (new_grid_spatial_hash fl config) cs
        (record { placed = λ j c. refl; distinct = λ c. tt })
