-- ===== src/Room/Registry/Log/Implements.antt =====
-- The registry's maps of pointers implement the log (internal/game/room/registry.go).
use mathlib.Core.List.{append_assoc}
use realtime_room_middleware.Base.{
  ℕ, zero, suc, ◌+◌, ◌≤◌, ◌≡◌, refl, sym, ap, subst, ◌∙◌, ite, if_pos, if_neg, Option, none, some,
  List, [], ◌∷◌, ◌++◌, String, length, length-append, string_discrete, arith, Option-cases, inl,
  inr,
}
use realtime_room_middleware.Base.Map.{lookup, string_key, lookup-insert}
use realtime_room_middleware.Base.Result.{ok}
use realtime_room_middleware.Room.Registry.{
  RoomInstance, InMemoryRoomRegistry, new_registry, cell_at, write_at, or_none, registered,
  new_instance, create_room, get_room, list_instances, close_instance, mark_closed,
}
use realtime_room_middleware.Room.Registry.Log.{
  RegistryCall, creates, closes, or_kept, or_kept_created, after, run, InstanceLog, find,
  of_logical, close_first, logged, log_of, position, positions, InStep, read_all, deref,
}

position-snoc :
    (n : ℕ) (id : String) (xs : InstanceLog) (x : RoomInstance)
    → position n x.instance_id xs ≡ none
    → position n id (xs ++ x ∷ [])
      ≡ ite (string_discrete x.instance_id id) (some (length xs + n)) (position n id xs)
unfolding position
position-snoc n id [] x h = ground arith
position-snoc n id (y ∷ ys) x h = ground (arith, position-snoc (suc n) id ys x)

positions-snoc :
    (n : ℕ) (l : String) (xs : InstanceLog) (x : RoomInstance)
    → positions n l (xs ++ x ∷ [])
      ≡ ite
          (string_discrete x.logical_room_id l)
          (positions n l xs ++ (length xs + n) ∷ [])
          (positions n l xs)
unfolding positions
positions-snoc n l [] x = ground arith
positions-snoc n l (y ∷ ys) x = ground (arith, positions-snoc (suc n) l ys x)

write_at-position :
    (xs : InstanceLog) (n a now : ℕ) (id : String)
    → position n id (write_at xs a (close_instance now)) ≡ position n id xs
unfolding position write_at
write_at-position [] n a now id = refl
write_at-position (x ∷ xs) n zero now id = refl
write_at-position (x ∷ xs) n (suc a) now id = ground (arith, write_at-position xs (suc n) a now id)

write_at-positions :
    (xs : InstanceLog) (n a now : ℕ) (l : String)
    → positions n l (write_at xs a (close_instance now)) ≡ positions n l xs
unfolding positions write_at
write_at-positions [] n a now l = refl
write_at-positions (x ∷ xs) n zero now l = refl
write_at-positions (x ∷ xs) n (suc a) now l = ground (arith, write_at-positions xs (suc n) a now l)

position-none :
    (n : ℕ) (id : String) (xs : InstanceLog) → position n id xs ≡ none → find id xs ≡ none
unfolding position find
position-none n id [] h = refl
position-none n id (x ∷ xs) h = ground (arith, position-none (suc n) id xs)

position-found :
    (n p : ℕ) (id : String) (xs : InstanceLog)
    → position n id xs ≡ some p
    → (x : RoomInstance) × (find id xs ≡ some x)
unfolding position find
position-found n p id [] h = absurd (ground arith)
position-found n p id (x ∷ xs) h = elim (string_discrete x.instance_id id) [
  | yes q ↦ (x, rw (if_pos _ q))
  | no q ↦
      let later : position (suc n) id xs ≡ some p = ground arith in
      let (y, f) = position-found (suc n) p id xs later in (y, rw (if_neg _ q) f)
]

position_ge : (n p : ℕ) (id : String) (xs : InstanceLog) → position n id xs ≡ some p → n ≤ p
unfolding position
position_ge n p id [] h = absurd (ground arith)
position_ge n p id (x ∷ xs) h = ground (arith, position_ge (suc n) p id xs)

-- The address of an id leads to its first instance, and a write there closes that one.
position-some :
    (xs : InstanceLog) (n a now : ℕ) (id : String)
    → position n id xs ≡ some (a + n)
    → (cell_at xs a ≡ find id xs) × (write_at xs a (close_instance now) ≡ close_first id now xs)
unfolding position find write_at close_first
position-some [] n a now id h = absurd (ground arith)
position-some (x ∷ xs) n zero now id h = elim (string_discrete x.instance_id id) [
  | yes p ↦ (rw (if_pos _ p), rw (if_pos _ p))
  | no p ↦
      let later : position (suc n) id xs ≡ some (0 + n) = ground arith in
      absurd (omega (arith, position_ge (suc n) (0 + n) id xs later))
]
position-some (x ∷ xs) n (suc a) now id h = elim (string_discrete x.instance_id id) [
  | yes p ↦ absurd (ground arith)
  | no p ↦
      let later : position (suc n) id xs ≡ some (a + suc n) = ground arith in
      let rest = position-some xs (suc n) a now id later in ground (arith, rest.0, rest.1)
]

close_first-absent :
    (id : String) (now : ℕ) (xs : InstanceLog) → find id xs ≡ none → close_first id now xs ≡ xs
unfolding find close_first
close_first-absent id now [] h = refl
close_first-absent id now (x ∷ xs) h = ground (arith, close_first-absent id now xs)

cell_at-middle :
    (zs xs : List RoomInstance) (x : RoomInstance) → cell_at (zs ++ x ∷ xs) (length zs) ≡ some x
cell_at-middle [] xs x = refl
cell_at-middle (z ∷ zs) xs x = cell_at-middle zs xs x

read_all-positions :
    (l : String) (zs xs : List RoomInstance)
    → read_all (zs ++ xs) (positions (length zs) l xs) ≡ of_logical l xs
unfolding read_all positions of_logical
read_all-positions l zs [] = refl
read_all-positions l zs (x ∷ xs) =
    let shift : (zs ++ x ∷ []) ++ xs ≡ zs ++ x ∷ xs = append_assoc zs (x ∷ []) xs in
    let longer : length (zs ++ x ∷ []) ≡ suc (length zs) =
      omega (arith, length-append zs (x ∷ [])) in
    let here = cell_at-middle zs xs x in
    let later : read_all (zs ++ x ∷ xs) (positions (suc (length zs)) l xs) ≡ of_logical l xs =
      subst (λ n. read_all (zs ++ x ∷ xs) (positions n l xs) ≡ of_logical l xs) longer
        (subst (λ c. read_all c (positions (length (zs ++ x ∷ [])) l xs) ≡ of_logical l xs) shift
          (read_all-positions l (zs ++ x ∷ []) xs)) in
    elim (string_discrete x.logical_room_id l) [
      | yes p ↦ rw (if_pos _ p) (rw (if_pos _ p) (rw (read_all, here) (ap (λ r. x ∷ r) later)))
      | no p ↦ rw (if_neg _ p) (rw (if_neg _ p) later)
    ]

pub new_registry-InStep : InStep new_registry
unfolding position positions lookup
new_registry-InStep = record { by_id = λ id. refl; by_room = λ l. refl }

pub create_room-InStep :
    (reg : InMemoryRoomRegistry) (id logical : String) (now : ℕ)
    → InStep reg
    → InStep (or_kept_created reg (create_room reg id logical now))
      × ((or_kept_created reg (create_room reg id logical now)).cells
          ≡ logged reg.cells (creates id logical now))
unfolding create_room logged
create_room-InStep reg id logical now h = elim (Option-cases (lookup id reg.instances)) [
  | inr (a, e) ↦
      rw (e, create_room)
        (h, let (x, f) = position-found 0 a id reg.cells (sym (h.by_id id) ∙ e) in rw (f, logged))
  | inl e ↦
      let absent = sym (h.by_id id) ∙ e in
      let x = new_instance id logical now in
      rw (e, create_room)
        (
          record {
            by_id = λ j. ground (
              arith,
              lookup-insert id j (length reg.cells) reg.instances,
              h.by_id j,
              position-snoc 0 j reg.cells x,
            );
            by_room = λ l. ground (
              arith,
              lookup-insert logical l
                  (or_none (lookup logical reg.by_logical) ++ length reg.cells ∷ []) reg.by_logical,
              h.by_room l,
              h.by_room logical,
              positions-snoc 0 l reg.cells x,
            );
          },
          rw (position-none 0 id reg.cells absent, logged),
        )
]

pub mark_closed-InStep :
    (reg : InMemoryRoomRegistry) (id : String) (now : ℕ)
    → InStep reg
    → InStep (or_kept reg (mark_closed reg id now))
      × ((or_kept reg (mark_closed reg id now)).cells ≡ logged reg.cells (closes id now))
unfolding mark_closed logged
mark_closed-InStep reg id now h = elim (Option-cases (lookup id reg.instances)) [
  | inl e ↦
      let absent = position-none 0 id reg.cells (sym (h.by_id id) ∙ e) in
      rw (e, mark_closed) (h, sym (close_first-absent id now reg.cells absent))
  | inr (a, e) ↦
      let at : position 0 id reg.cells ≡ some (a + 0) =
        sym (h.by_id id) ∙ e ∙ ap some (omega arith) in
      rw (e, mark_closed)
        (
          record {
            by_id = λ j. h.by_id j ∙ sym (write_at-position reg.cells 0 a now j);
            by_room = λ l. h.by_room l ∙ sym (write_at-positions reg.cells 0 a now l);
          },
          (position-some reg.cells 0 a now id at).1,
        )
]

after-InStep :
    (reg : InMemoryRoomRegistry) (c : RegistryCall)
    → InStep reg
    → InStep (after reg c) × ((after reg c).cells ≡ logged reg.cells c)
unfolding after
after-InStep reg (creates id logical now) h = create_room-InStep reg id logical now h
after-InStep reg (closes id now) h = mark_closed-InStep reg id now h

run-InStep :
    (reg : InMemoryRoomRegistry) (cs : List RegistryCall)
    → InStep reg
    → InStep (run reg cs) × ((run reg cs).cells ≡ log_of reg.cells cs)
unfolding run log_of
run-InStep reg [] h = (h, refl)
run-InStep reg (c ∷ cs) h =
    let (stepped, e) = after-InStep reg c h in
    let (done, f) = run-InStep (after reg c) cs stepped in (done, f ∙ ap (λ log. log_of log cs) e)

pub get_room-find :
    (reg : InMemoryRoomRegistry) (id : String)
    → InStep reg
    → deref reg (get_room reg id) ≡ find id reg.cells
unfolding get_room
get_room-find reg id h = elim (Option-cases (lookup id reg.instances)) [
  | inl e ↦ rw (e, get_room) (sym (position-none 0 id reg.cells (sym (h.by_id id) ∙ e)))
  | inr (a, e) ↦
      let at : position 0 id reg.cells ≡ some (a + 0) =
        sym (h.by_id id) ∙ e ∙ ap some (omega arith) in
      rw (e, get_room) (position-some reg.cells 0 a 0 id at).0
]

-- After any calls of CreateRoom and MarkClosed on a new registry, GetRoom leads to the instance of that
-- id in the log of these calls (or returns an error if there is none), and ListInstances leads to
-- exactly the instances of that logical room in the log, in the order of their creation and with
-- the state that they have now.
pub run-Log :
    (cs : List RegistryCall) (id logical : String)
    → let reg = run new_registry cs in
      (deref reg (get_room reg id) ≡ find id (log_of [] cs))
      × (read_all reg.cells (list_instances reg logical) ≡ of_logical logical (log_of [] cs))
unfolding list_instances
run-Log cs id logical =
    let reg = run new_registry cs in
    let (h, e) = run-InStep new_registry cs new_registry-InStep in
    (
      get_room-find reg id h ∙ ap (find id) e,
      ap (read_all reg.cells) (h.by_room logical)
          ∙ read_all-positions logical [] reg.cells
          ∙ ap (of_logical logical) e,
    )

-- How a call changes what is found under an id.
pub find-snoc :
    (j : String) (xs : InstanceLog) (x : RoomInstance)
    → find x.instance_id xs ≡ none
    → find j (xs ++ x ∷ []) ≡ ite (string_discrete x.instance_id j) (some x) (find j xs)
unfolding find
find-snoc j [] x h = ground arith
find-snoc j (y ∷ ys) x h = ground (arith, find-snoc j ys x)

abbrev pub closed_of : ℕ → Option RoomInstance → Option RoomInstance
closed_of now none = none
closed_of now (some x) = some (close_instance now x)

pub find-close_first :
    (j id : String) (now : ℕ) (xs : InstanceLog)
    → find j (close_first id now xs)
      ≡ ite (string_discrete id j) (closed_of now (find j xs)) (find j xs)
unfolding find close_first
find-close_first j id now [] = ground arith
find-close_first j id now (x ∷ xs) = ground (arith, find-close_first j id now xs)

-- A registry takes an id that its log does not have.
pub create_room_fresh :
    (reg : InMemoryRoomRegistry) (id logical : String) (now : ℕ)
    → InStep reg
    → find id reg.cells ≡ none
    → (create_room reg id logical now ≡ ok (length reg.cells, registered reg id logical now))
      × InStep (registered reg id logical now)
unfolding create_room logged
create_room_fresh reg id logical now h fresh = elim (Option-cases (lookup id reg.instances)) [
  | inr (a, e) ↦
      let (x, f) = position-found 0 a id reg.cells (sym (h.by_id id) ∙ e) in absurd (ground arith)
  | inl e ↦
      let made : create_room reg id logical now
          ≡ ok (length reg.cells, registered reg id logical now) =
        rw (e, create_room) in
      (
        made,
        subst (λ r. InStep (or_kept_created reg r)) made
            (create_room-InStep reg id logical now h).0,
      )
]
