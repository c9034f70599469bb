-- ===== src/Room/Cadence/Rate.antt =====
-- How often `isBroadcastTick` says yes (internal/game/room/tick.go). The tick numbers here do not wrap.
use native.Mathlib.Nat.{
  div-add-mod, add-mul-div_left, div-eq_of_lt, div_self, mod-eq_of_lt, mod-lt, le-div_iff_mul-le,
  suc-mod, mod_self, mod-one, mul-div-le, div-mul-le_self, add-div_right, div-le_self,
}
use realtime_room_middleware.Base.{
  ℕ, zero, suc, ◌+◌, ◌*◌, ◌/◌, ◌%◌, ◌≤◌, ◌<◌, ◌≡◌, if◌then◌else◌, leb, ◌==◌, arith, dec_lt, ap, min,
}
use realtime_room_middleware.Base.Int.{ℤ, pos}
use realtime_room_middleware.Base.Word.{u32_mod}
use realtime_room_middleware.Room.Cadence.{is_broadcast_tick}

-- The number of broadcasts among the `n` ticks from `t` on.
unfoldable pub broadcasts : ℤ → ℤ → ℕ → ℕ → ℕ
broadcasts tick_rate rate t zero = 0
broadcasts tick_rate rate t (suc n) =
    (if is_broadcast_tick tick_rate rate t then 1 else 0) + broadcasts tick_rate rate (suc t) n

abbrev is_multiple : ℕ → ℕ → ℕ
is_multiple d t = if t % d == 0 then 1 else 0

-- One number further, the quotient grows by one at a multiple.
div-suc_inside : (d t : ℕ) → 0 < d → suc (t % d) < d → is_multiple d (suc t) + t / d ≡ suc t / d
div-suc_inside d t h l = ground (
  arith,
  div-add-mod t d,
  add-mul-div_left (suc (t % d)) (t / d) h,
  suc-mod t d,
  mod-eq_of_lt l,
  div-eq_of_lt l,
)

div-suc_edge : (d t : ℕ) → 0 < d → suc (t % d) ≡ d → is_multiple d (suc t) + t / d ≡ suc t / d
div-suc_edge d t h l = ground (
  arith,
  div-add-mod t d,
  add-mul-div_left (suc (t % d)) (t / d) h,
  suc-mod t d,
  mod_self d,
  div_self h,
  ap (λ x. x / d) l,
  ap (λ x. x % d) l,
)

div-suc : (d t : ℕ) → 0 < d → is_multiple d (suc t) + t / d ≡ suc t / d
div-suc d t h = elim (dec_lt (suc (t % d)) d) [
  | yes l ↦ div-suc_inside d t h l
  | no n ↦ div-suc_edge d t h (omega (arith, mod-lt t h))
]

-- The number of ticks from one broadcast to the next.
abbrev pub ratio : ℕ → ℕ → ℕ
ratio tick_rate rate = if leb tick_rate rate then 1 else tick_rate / rate

ratio_pos : (tick_rate rate : ℕ) → 0 < rate → 0 < tick_rate → 0 < ratio tick_rate rate
ratio_pos tick_rate rate h k =
    ground (arith, (le-div_iff_mul-le {k = rate} {x = 1} {y = tick_rate} h).1)

is_broadcast_tick-ratio :
    (tick_rate rate t : ℕ)
    → 0 < rate
    → 0 < tick_rate
    → tick_rate < u32_mod
    → (if is_broadcast_tick (pos tick_rate) (pos rate) t then 1 else 0)
      ≡ is_multiple (ratio tick_rate rate) t
unfolding is_broadcast_tick
is_broadcast_tick-ratio tick_rate rate t h k small =
    let d = tick_rate / rate in
    ground (
      arith,
      div-le_self tick_rate rate,
      mod-eq_of_lt {n = d} {m = u32_mod},
      mod-one t,
      ratio_pos tick_rate rate h k,
    )

plus_zero : (a : ℕ) → a ≡ a + 0
plus_zero a = omega arith

plus_suc : (a b : ℕ) → a + suc b ≡ suc a + b
plus_suc a b = omega arith

broadcasts-div :
    (tick_rate rate t n : ℕ)
    → 0 < rate
    → 0 < tick_rate
    → tick_rate < u32_mod
    → broadcasts (pos tick_rate) (pos rate) (suc t) n + t / ratio tick_rate rate
      ≡ (t + n) / ratio tick_rate rate
unfolding broadcasts
broadcasts-div tick_rate rate t zero h k small =
    omega (arith, ap (λ x. x / ratio tick_rate rate) (plus_zero t))
broadcasts-div tick_rate rate t (suc n) h k small = omega (
  arith,
  broadcasts-div tick_rate rate (suc t) n h k small,
  is_broadcast_tick-ratio tick_rate rate (suc t) h k small,
  div-suc (ratio tick_rate rate) t (ratio_pos tick_rate rate h k),
  ap (λ x. x / ratio tick_rate rate) (plus_suc t n),
)

ratio-mul : (tick_rate rate : ℕ) → ratio tick_rate rate * min rate tick_rate ≤ tick_rate
ratio-mul tick_rate rate = ground (arith, div-mul-le_self tick_rate rate)

second :
    (tick_rate rate t : ℕ)
    → 0 < rate
    → 0 < tick_rate
    → t / ratio tick_rate rate + min rate tick_rate ≤ (t + tick_rate) / ratio tick_rate rate
second tick_rate rate t h k =
    let d = ratio tick_rate rate in
    let b = min rate tick_rate in
    (le-div_iff_mul-le (ratio_pos tick_rate rate h k)).1
      (omega (arith, ratio-mul tick_rate rate, mul-div-le t d))

-- With positive rates, and a tick rate that a `uint32` holds, exactly one of any
-- `TickRateHz / BroadcastRateHz` ticks in a row (of every single tick, if the broadcast rate is at
-- least the tick rate) is a broadcast tick, and a second's worth of ticks has at least
-- `min(BroadcastRateHz, TickRateHz)` broadcasts; tick numbers are taken not to wrap.
pub broadcasts-cadence :
    (tick_rate rate t : ℕ)
    → 0 < rate
    → 0 < tick_rate
    → tick_rate < u32_mod
    → (broadcasts (pos tick_rate) (pos rate) (suc t) (ratio tick_rate rate) ≡ 1)
      × (min rate tick_rate ≤ broadcasts (pos tick_rate) (pos rate) (suc t) tick_rate)
broadcasts-cadence tick_rate rate t h k small =
    let d = ratio tick_rate rate in
    let pd = ratio_pos tick_rate rate h k in
    (
      omega (arith, broadcasts-div tick_rate rate t d h k small, add-div_right t pd),
      omega
          (arith, broadcasts-div tick_rate rate t tick_rate h k small, second tick_rate rate t h k),
    )
