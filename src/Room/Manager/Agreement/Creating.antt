-- ===== src/Room/Manager/Agreement/Creating.antt =====
-- CreateRoom gives a new id to a new room (internal/game/room/manager.go).
use realtime_room_middleware.Base.{
  ℕ, suc, ◌<◌, ◌≡◌, ◌≢◌, ◌∙◌, refl, sym, subst, ite, if_pos, if_neg, none, some, String,
  string_discrete, arith, Option-cases, inl, inr,
}
use realtime_room_middleware.Base.Floats.{Floats}
use realtime_room_middleware.Base.Map.{Map, lookup, insert, string_key, nat_key, lookup-insert}
use realtime_room_middleware.Base.Result.{ok}
use realtime_room_middleware.Room.{running, new_room}
use realtime_room_middleware.Room.Lifecycle.{start, start_from}
use realtime_room_middleware.Room.Registry.{new_instance, registered}
use realtime_room_middleware.Room.Registry.Log.{find}
use realtime_room_middleware.Room.Registry.Log.Implements.{find-snoc, create_room_fresh}
use realtime_room_middleware.Room.Manager.{RoomManager, started, create_room}
use realtime_room_middleware.Room.Manager.Entries.{Live, Named, Entry, Entry-added}
use realtime_room_middleware.Room.Manager.Agreement.{Agrees}

-- What Sprintf gives for two numbers differs, whatever the logical rooms are.
abbrev pub Numbers : (String → ℕ → String) → Type 0
Numbers format = (l l' : String) (n n' : ℕ) → format l n ≡ format l' n' → n ≡ n'

module _ (fl : Floats) (format : String → ℕ → String) (numbers : Numbers format) where
  open fl use {F32}

  -- The manager once a room has been created.
  abbrev pub with_room : RoomManager F32 → String → ℕ → RoomManager F32
  with_room m logical now =
      let n = suc m.instance_counter in
      let id = format logical n in
      let r =
        new_room fl (record { logical_room_id = logical; instance_id = id; config = m.config }) in
      record m {
        registry = registered m.registry id logical now;
        rooms = insert id m.next_address m.rooms;
        heap = insert m.next_address (record r { status = running }) m.heap;
        next_address = suc m.next_address;
        instance_counter = n;
      }

  pub unused :
      (m : RoomManager F32) (closing : Map String ℕ) (logical : String)
      → Agrees format m closing
      → find (format logical (suc m.instance_counter)) m.registry.cells ≡ none
  unused m closing logical h =
      let id = format logical (suc m.instance_counter) in
      elim (Option-cases (find id m.registry.cells)) [
        | inl e ↦ e
        | inr (x, e) ↦
            let (l, n, same_id, low) = h.numbered id x e in
            absurd (omega (arith, numbers logical l (suc m.instance_counter) n same_id, low))
      ]

  -- CreateRoom never fails in a manager that agrees.
  pub create_room-ok :
      (m : RoomManager F32) (closing : Map String ℕ) (logical : String) (now : ℕ)
      → Agrees format m closing
      → create_room fl format m logical now ≡ (ok m.next_address, with_room m logical now)
  unfolding create_room started start start_from new_room
  create_room-ok m closing logical now h =
      let id = format logical (suc m.instance_counter) in
      let (made, _) =
        create_room_fresh m.registry id logical now h.in_step (unused m closing logical h) in
      rw (made, create_room)

  pub create_room-Agrees :
      (m : RoomManager F32) (closing : Map String ℕ) (logical : String) (now : ℕ)
      → Agrees format m closing
      → Agrees format (with_room m logical now) closing
  unfolding new_room
  create_room-Agrees m closing logical now h =
      let n = suc m.instance_counter in
      let id = format logical n in
      let x = new_instance id logical now in
      let a = m.next_address in
      let r = (with_room m logical now).heap in
      let made =
        record (new_room fl
          (record { logical_room_id = logical; instance_id = id; config = m.config })) {
            status = running;
          } in
      let none_there = unused m closing logical h in
      let empty : lookup a m.heap ≡ none = elim (Option-cases (lookup a m.heap)) [
        | inl e ↦ e
        | inr (q, e) ↦ absurd (omega (arith, h.fresh a q e))
      ] in
      let found = λ (j : String). find-snoc j m.registry.cells x none_there in
      let pointer = λ (j : String). lookup-insert id j a m.rooms in
      let live : lookup a r ≡ some made = ground (arith, lookup-insert a a made m.heap) in
      record {
        entries = λ j.
            subst (λ o. Entry r j (lookup j closing) (lookup j (insert id a m.rooms)) o)
              (sym (found j))
              (subst
                (λ o.
                  Entry r j (lookup j closing) o
                    (ite (string_discrete id j) (some x) (find j m.registry.cells)))
                (sym (pointer j))
                (elim (string_discrete id j) [
                  | yes p ↦
                      rw (if_pos _ p)
                        (rw (if_pos _ p) (refl, subst (λ o. Live o j) (sym live) (refl, p)))
                  | no p ↦ rw (if_neg _ p) (
                      rw (if_neg _ p) (
                        Entry-added m.heap a made j (lookup j closing) (lookup j m.rooms)
                          (find j m.registry.cells) empty (h.entries j)))
                ]));
        in_step = (create_room_fresh m.registry id logical now h.in_step none_there).1;
        fresh = λ b q e. ground (arith, lookup-insert a b made m.heap, h.fresh b q);
        numbered = λ j inst e. elim (string_discrete id j) [
          | yes p ↦ (logical, n, sym p, omega arith)
          | no p ↦
              let old : find j m.registry.cells ≡ some inst = ground (arith, found j) in
              let (l, k, same_id, low) = h.numbered j inst old in (l, k, same_id, omega arith)
        ];
        leaving = λ j b e.
            let (gone, named, (y, known)) = h.leaving j b e in
            let other : id ≢ j = λ p.
              absurd (ground (arith, subst (λ i. find i m.registry.cells ≡ none) p none_there)) in
            (
              pointer j ∙ rw (if_neg _ other) gone,
              elim (Option-cases (lookup b m.heap)) [
                | inl f ↦ absurd (subst (λ o. Named o j) f named)
                | inr (q, f) ↦
                    let old : b < m.next_address = h.fresh b q f in
                    let kept : lookup b r ≡ lookup b m.heap =
                      ground (arith, lookup-insert a b made m.heap) in
                    subst (λ o. Named o j) (sym kept) named
              ],
              (y, found j ∙ rw (if_neg _ other) known),
            );
      }
