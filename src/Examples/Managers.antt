-- ===== src/Examples/Managers.antt =====
-- Runs of the room manager and of its registry.
use realtime_room_middleware.Base.{
  ℕ, zero, suc, ◌≡◌, refl, none, List, [], ◌∷◌, String, ap, sym, ◌∙◌,
}
use realtime_room_middleware.Base.Map.{lookup, nat_key}
use realtime_room_middleware.Base.Result.{ok}
use realtime_room_middleware.Room.{RoomConfig, default_room_config}
use realtime_room_middleware.Room.Registry
use realtime_room_middleware.Room.Registry.{new_registry, list_instances}
use realtime_room_middleware.Room.Registry.Log
use realtime_room_middleware.Room.Registry.Log.{
  RegistryCall, find, of_logical, log_of, read_all, deref,
}
use realtime_room_middleware.Room.Registry.Log.Implements.{run-Log}
use realtime_room_middleware.Room.Manager.{get_room, create_room}
use realtime_room_middleware.Room.Manager.Entries.{Live}
use realtime_room_middleware.Room.Manager.Agreement.Creating.{Numbers}
use realtime_room_middleware.Room.Manager.Agreement.Runs.{
  ManagerStep, creates, begins_close, halts, marks, new_state, run, RoomIsKnown, run-RoomIsKnown,
  run-create_room,
}
use realtime_room_middleware.Examples.Numbers.{whole_numbers}

-- A number as a text of that length, in the place of Sprintf.
abbrev tally : String → ℕ → String
tally l zero = String.[]
tally l (suc n) = String.◌∷◌ "1" (tally l n)

abbrev size : String → ℕ
size String.[] = zero
size (String.◌∷◌ c s) = suc (size s)

size-tally : (l : String) (n : ℕ) → size (tally l n) ≡ n
size-tally l zero = refl
size-tally l (suc n) = ap suc (size-tally l n)

tally-Numbers : Numbers tally
tally-Numbers l l' n n' e = sym (size-tally l n) ∙ ap size e ∙ size-tally l' n'

abbrev config : RoomConfig ℕ
config = default_room_config whole_numbers

-- Two rooms of the hall, of which the first is being closed when the second is made.
abbrev steps : List ManagerStep
steps = creates "hall" 1 ∷ begins_close "1" ∷ creates "hall" 2 ∷ halts "1" ∷ marks "1" 3 ∷ []

run-RoomIsKnown_example :
    let st = run whole_numbers tally (new_state config) steps in
    RoomIsKnown st "11" (get_room st.manager "11")
run-RoomIsKnown_example = run-RoomIsKnown whole_numbers tally tally-Numbers config steps "11"

run-create_room_example :
    let m = (run whole_numbers tally (new_state config) steps).manager in
    let id = tally "hall" (suc m.instance_counter) in
    let (result, m') = create_room whole_numbers tally m "hall" 4 in
    (deref m.registry (Registry.get_room m.registry id) ≡ none)
    × (result ≡ ok m.next_address)
    × (get_room m' id ≡ ok m.next_address)
    × Live (lookup m.next_address m'.heap) id
run-create_room_example = run-create_room whole_numbers tally tally-Numbers config steps "hall" 4

abbrev registry_calls : List RegistryCall
registry_calls =
    Log.creates "hall-0001" "hall" 1
    ∷ Log.creates "lab-0002" "lab" 2
    ∷ Log.closes "hall-0001" 3
    ∷ Log.creates "hall-0003" "hall" 4
    ∷ []

run-Log_example :
    let reg = Log.run new_registry registry_calls in
    (deref reg (Registry.get_room reg "hall-0001") ≡ find "hall-0001" (log_of [] registry_calls))
    × (read_all reg.cells (list_instances reg "hall")
        ≡ of_logical "hall" (log_of [] registry_calls))
run-Log_example = run-Log registry_calls "hall-0001" "hall"
