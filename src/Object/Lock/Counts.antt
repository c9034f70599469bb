-- ===== src/Object/Lock/Counts.antt =====
-- What the counts of `LockManager` say of the objects.
use realtime_room_middleware.Base.{
  ℕ, ◌+◌, ◌-◌, ◌≤◌, ◌≡◌, ◌≢◌, Bool, true, [], ◌∷◌, String, arith, ite, string_discrete, some,
  Bool-cases, Option-cases, inl, inr,
}
use realtime_room_middleware.Base.Map.{
  Map, lookup, insert, delete, string_key, lookup-insert, lookup-delete, sum_by,
  sum_by-insert_present,
}
use realtime_room_middleware.Object.{ObjectState, get}
use realtime_room_middleware.Object.Lock.{
  LockManager, count_of, drop_count, sweep, cleared, acquire_lock, refresh_lock, release_lock,
  leased, extended,
}

pub count_of-insert :
    (k u : String) (n : ℕ) (m : Map String ℕ)
    → count_of u (insert k n m) ≡ ite (string_discrete k u) n (count_of u m)
count_of-insert k u n m = ground (arith, lookup-insert k u n m)

pub count_of-delete :
    (k u : String) (m : Map String ℕ)
    → count_of u (delete k m) ≡ ite (string_discrete k u) 0 (count_of u m)
count_of-delete k u m = ground (arith, lookup-delete k u m)

-- `clearLock` takes one from its owner's count, and from no other.
pub count_of-drop_count :
    (k u : String) (m : Map String ℕ)
    → k ≢ ""
    → count_of u (drop_count k m) ≡ ite (string_discrete k u) (count_of u m - 1) (count_of u m)
unfolding drop_count
count_of-drop_count k u m h =
    ground (arith, count_of-insert k u (count_of k m - 1) m, count_of-delete k u m)

module _ {F : Type 0} where
  -- 1 if the object's lock names the user.
  abbrev pub holds : String → String → ObjectState F → ℕ
  holds u _ o = ite (string_discrete o.lock.locked_by u) 1 0

  -- How many objects carry a lock that names the user.
  abbrev pub held : String → Map String (ObjectState F) → ℕ
  held u = sum_by (holds u)

  pub held-insert :
      (u id : String) (o o' : ObjectState F) (m : Map String (ObjectState F))
      → lookup id m ≡ some o
      → held u (insert id o' m) + holds u id o ≡ held u m + holds u id o'
  held-insert u id o o' m h = sum_by-insert_present (holds u) id o' o m h

  -- A sweep takes the same number from a user's count and from the locks held; `x` is what the
  -- objects outside the sweep hold.
  pub sweep-le :
      (u : String)
      → u ≢ ""
      → (test : ObjectState F → Bool)
      → ((o : ObjectState F) → test o ≡ true → o.lock.locked_by ≢ "")
      → (m : Map String (ObjectState F)) (counts : Map String ℕ) (x : ℕ)
      → held u m + x ≤ count_of u counts
      → held u (sweep test m counts).objects + x ≤ count_of u (sweep test m counts).counts
  unfolding sweep sum_by
  sweep-le u ne test locked [] counts x h = h
  sweep-le u ne test locked ((id, o) ∷ m) counts x h = elim (Bool-cases (test o)) [
    | inl hit ↦ rw hit (
        ground (
          arith,
          count_of-drop_count o.lock.locked_by u counts (locked o hit),
          sweep-le u ne test locked m (drop_count o.lock.locked_by counts) x,
        ))
    | inr miss ↦ rw miss (
        let rest = sweep-le u ne test locked m counts (holds u id o + x) (omega arith) in
        omega arith)
  ]

  -- The same, where the count is exact.
  pub sweep-eq :
      (u : String)
      → u ≢ ""
      → (test : ObjectState F → Bool)
      → ((o : ObjectState F) → test o ≡ true → o.lock.locked_by ≢ "")
      → (m : Map String (ObjectState F)) (counts : Map String ℕ) (x : ℕ)
      → held u m + x ≡ count_of u counts
      → held u (sweep test m counts).objects + x ≡ count_of u (sweep test m counts).counts
  unfolding sweep sum_by
  sweep-eq u ne test locked [] counts x h = h
  sweep-eq u ne test locked ((id, o) ∷ m) counts x h = elim (Bool-cases (test o)) [
    | inl hit ↦ rw hit (
        ground (
          arith,
          count_of-drop_count o.lock.locked_by u counts (locked o hit),
          sweep-eq u ne test locked m (drop_count o.lock.locked_by counts) x,
        ))
    | inr miss ↦ rw miss (
        let rest = sweep-eq u ne test locked m counts (holds u id o + x) (omega arith) in
        omega arith)
  ]

  pub acquire_lock-held :
      (lm : LockManager F) (id user session : String) (now : ℕ) (u : String)
      → u ≢ ""
      → held u lm.objects.objects ≤ count_of u lm.user_lock_count
      → let lm' = (acquire_lock lm id user session now).0 in
        held u lm'.objects.objects ≤ count_of u lm'.user_lock_count
  unfolding acquire_lock
  acquire_lock-held lm id user session now u ne h = elim (Option-cases (get lm.objects id)) [
    | inl e ↦ rw (e, acquire_lock) h
    | inr (o, e) ↦ ground (
      arith,
      count_of-insert user u (count_of user lm.user_lock_count + 1) lm.user_lock_count,
      held-insert u id o (leased lm.lease.ttl o user session now) lm.objects.objects e,
      held-insert u id o (leased lm.lease.ttl o o.lock.locked_by session now) lm.objects.objects e,
    )
  ]

  pub acquire_lock-capped :
      (lm : LockManager F) (id user session : String) (now : ℕ) (u : String)
      → count_of u lm.user_lock_count ≤ lm.lease.max_locks_per_user
      → count_of u (acquire_lock lm id user session now).0.user_lock_count
        ≤ lm.lease.max_locks_per_user
  unfolding acquire_lock
  acquire_lock-capped lm id user session now u h =
      ground
        (arith, count_of-insert user u (count_of user lm.user_lock_count + 1) lm.user_lock_count)

  pub refresh_lock-held :
      (lm : LockManager F) (id user : String) (now : ℕ) (u : String)
      → held u (refresh_lock lm id user now).0.objects.objects ≡ held u lm.objects.objects
  unfolding refresh_lock
  refresh_lock-held lm id user now u = elim (Option-cases (get lm.objects id)) [
    | inl e ↦ rw (e, refresh_lock)
    | inr (o, e) ↦
        ground (arith, held-insert u id o (extended lm.lease.ttl o now) lm.objects.objects e)
  ]

  pub release_lock-held :
      (lm : LockManager F) (id user : String) (now : ℕ) (u : String)
      → u ≢ ""
      → held u lm.objects.objects ≤ count_of u lm.user_lock_count
      → let lm' = (release_lock lm id user now).0 in
        held u lm'.objects.objects ≤ count_of u lm'.user_lock_count
  unfolding release_lock
  release_lock-held lm id user now u ne h = elim (Option-cases (get lm.objects id)) [
    | inl e ↦ rw (e, release_lock) h
    | inr (o, e) ↦ ground (
      arith,
      count_of-drop_count o.lock.locked_by u lm.user_lock_count,
      held-insert u id o (cleared o) lm.objects.objects e,
    )
  ]
