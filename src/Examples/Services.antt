-- ===== src/Examples/Services.antt =====
-- The theorems on the Redis client, the sockets and the reports at inputs that meet their hypotheses.
use charging_station_system.Prelude.{
  eq_codes_refl, eq_codes→≡, ℕ, ltb, Bool-cases, inl, inr, ◌/◌, ◌+◌, ◌*◌, ◌≤◌, ◌<◌, ◌≡◌, refl, ap,
  Bool, true, false, not, ◌&&◌, none, some, List, [], ◌∷◌, ◌++◌, arith, map, if◌then◌else◌, codes,
  eq_codes, compare, length, count_by, sort_by,
}
use charging_station_system.Float.{fixed_float, unit}
use charging_station_system.Schema.{Codes, Detail, Db}
use charging_station_system.Billing.Tariff.{day_ms, minute_of_day}
use charging_station_system.Redis.{
  Command, connect_command, ping_command, quit_command, get_command, set_command,
  set_absent_command, del_command, exists_command, lpop_command, llen_command, rpush_command,
  lrem_command, lrange_command, null_reply, text_reply, number_reply, Library, RedisState, Method,
  get, queue_push, lock, bool_answer, call,
}
use charging_station_system.Redis.Availability.{call_all, default_answer, unavailable_stays, outage}
use charging_station_system.Redis.Locks.{IsLockServer, is_granted, may_release, lock_exclusive}
use charging_station_system.Realtime.Frame.{encode_text_frame}
use charging_station_system.Realtime.Frame.Roundtrip.{
  read_text_frame, read_text_frame-encode_text_frame,
}
use charging_station_system.Realtime.Clients.{
  single, missing, RealtimeEvent, attach_call, upgrade, socket_closed, no_clients, broadcast,
}
use charging_station_system.Realtime.Clients.Open.{
  open_after, handle_all, writes_to, broadcast_reaches,
}
use charging_station_system.Reports.Range.{day, week, day_number, week_day, range_start_for}
use charging_station_system.Reports.Range.Week.{week_start}
use charging_station_system.Reports.Pile.{report_of}
use charging_station_system.Reports.Pile.Totals.{entry_of, report_of_sums}
use charging_station_system.Station.{Env}
use charging_station_system.Examples.Station.{world, env}

-- A server that knows until when it has which keys, and whose clock goes on with every command.
record KeyServer : Type 0 where
  time : ℕ
  expires : Codes → ℕ

abbrev with_expiry : Codes → ℕ → KeyServer → KeyServer
with_expiry k t s = record {
  time = s.time + 1;
  expires = λ j. if eq_codes k j then t else s.expires j;
}

abbrev tick : KeyServer → KeyServer
tick s = record s { time = s.time + 1 }

abbrev keys_server : Library KeyServer
keys_server (set_absent_command k v ttl) s =
    if ltb s.time (s.expires k)
    then (some null_reply, tick s)
    else (some (text_reply (codes "OK")), with_expiry k (s.time + ttl) s)
keys_server (del_command k) s = (some (number_reply 1), with_expiry k 0 s)
keys_server c s = (some null_reply, tick s)

abbrev time_of : KeyServer → ℕ
time_of s = s.time

abbrev expiry_of : KeyServer → Codes → ℕ
expiry_of s k = s.expires k

-- The library of a server that is down.
abbrev dead_server : Library KeyServer
dead_server c s = (none, s)

absent_lem :
    (k v : Codes) (ttl : ℕ) (s : KeyServer)
    → is_granted (keys_server (set_absent_command k v ttl) s).0 ≡ bool_answer true
    → (s.expires k ≤ s.time)
      × (s.time + ttl ≤ (keys_server (set_absent_command k v ttl) s).1.expires k)
absent_lem k v ttl s e = elim (Bool-cases (ltb s.time (s.expires k))) [
  | inl held ↦ let refused = rw held at e in cc
  | inr free ↦ (ground arith, rw free (rw (eq_codes_refl k) (omega arith)))
]

expires_later :
    (k j : Codes) (ttl : ℕ) (s : KeyServer)
    → s.expires k ≤ (keys_server (set_absent_command j (codes "1") ttl) s).1.expires k
expires_later k j ttl s = elim (Bool-cases (ltb s.time (s.expires j))) [
  | inl held ↦ rw held (omega arith)
  | inr free ↦ rw free (elim (Bool-cases (eq_codes j k)) [
    | inl same ↦ rw same (let at_key = ap s.expires (eq_codes→≡ j k same) in ground arith)
    | inr other ↦ rw other (omega arith)
  ])
]

key_stays :
    (k : Codes) (c : Command) (s : KeyServer)
    → may_release k c ≡ false
    → s.expires k ≤ (keys_server c s).1.expires k
key_stays k connect_command s h = omega arith
key_stays k ping_command s h = omega arith
key_stays k quit_command s h = omega arith
key_stays k (get_command j) s h = omega arith
key_stays k (set_command j v ttl) s h = omega arith
key_stays k (set_absent_command j v ttl) s h = expires_later k j ttl s
key_stays k (del_command j) s h = rw h (omega arith)
key_stays k (exists_command j) s h = omega arith
key_stays k (lpop_command j) s h = omega arith
key_stays k (llen_command j) s h = omega arith
key_stays k (rpush_command j vs) s h = omega arith
key_stays k (lrem_command j n v) s h = omega arith
key_stays k (lrange_command j start stop) s h = omega arith

keys_server-IsLockServer : IsLockServer keys_server time_of expiry_of
keys_server-IsLockServer = record { sets_absent = absent_lem; keeps = key_stays }

abbrev key : Codes
key = codes "lock:dispatch"

abbrev redis_state : Bool → RedisState KeyServer
redis_state on = record {
  server = record { time = 5; expires = λ k. 0 };
  available = on;
  sent = [];
}

abbrev methods : List Method
methods = get key ∷ lock key 30 ∷ queue_push key [] ∷ []

unavailable_stays_example :
    call_all keys_server methods (redis_state false)
    ≡ (map default_answer methods, redis_state false)
unavailable_stays_example =
    unavailable_stays keys_server methods (redis_state false) (refl, (refl, (refl, tt))) refl

outage_example :
    ((call_all dead_server methods (redis_state true)).0 ≡ map default_answer methods)
    × (length (call_all dead_server methods (redis_state true)).1.sent ≤ 0 + 1)
outage_example =
    outage dead_server (λ c held. refl) methods (redis_state true) (refl, (refl, (refl, tt)))

lock_exclusive_example :
    (call keys_server
      (lock key 30)
      (call_all keys_server methods (call keys_server (lock key 30) (redis_state true)).1).1).0
    ≡ bool_answer false
unfolding call call_all
lock_exclusive_example =
    lock_exclusive keys_server time_of expiry_of keys_server-IsLockServer key 30 30 methods
      (redis_state true) refl (refl, (refl, (refl, tt))) (omega arith)

read_text_frame-encode_text_frame_example :
    read_text_frame (encode_text_frame (codes "changed") ++ codes "rest")
    ≡ some (codes "changed", codes "rest")
read_text_frame-encode_text_frame_example =
    read_text_frame-encode_text_frame (codes "changed") (codes "rest") (omega arith)

abbrev events : List RealtimeEvent
events =
    attach_call
    ∷ upgrade (record {
      socket = 1;
      url = some (codes "/ws/station");
      key = single (codes "k");
      protocol = missing;
    })
    ∷ upgrade (record {
      socket = 2;
      url = some (codes "/ws/station");
      key = single (codes "k");
      protocol = missing;
    })
    ∷ socket_closed 2
    ∷ []

broadcast_reaches_example :
    count_by
      (writes_to 1)
      (broadcast (λ c. false) (codes "{}") (handle_all (λ k. k) events no_clients))
    ≡ (if open_after 1 events false false && not false then 1 else 0)
broadcast_reaches_example = broadcast_reaches (λ k. k) events (λ c. false) (codes "{}") 1

-- A bill of order 11, for its session at pile 1, and one of before the range.
abbrev bill_row : ℕ → ℕ → Detail ℕ
bill_row i generated_at = record {
  id = i;
  order_id = 11;
  session_id = 21;
  generated_at = generated_at;
  actual_amount = 15 * unit;
  duration = unit / 2;
  charge_fee = 10 * unit;
  service_fee = 12 * unit;
  total_fee = 22 * unit;
  billing_rule_version = 1;
}

abbrev billed_db : Db ℕ
billed_db = record world.db {
  details = bill_row 40 90_000_000 ∷ bill_row 41 200_000_000 ∷ bill_row 42 200_000_001 ∷ [];
}

abbrev report_env : Env ℕ
report_env = record env { real_ms = 201_600_000 }

report_of_sums_example :
    report_of report_env day billed_db
    ≡ map
        (entry_of (range_start_for report_env.zone report_env.real_ms day) day billed_db)
        (sort_by (λ a b. compare a.id b.id) billed_db.piles)
report_of_sums_example = report_of_sums report_env day billed_db

week_start_example :
    (range_start_for 0 700_000_000 week ≤ 700_000_000)
    × (700_000_000 < range_start_for 0 700_000_000 week + 7 * day_ms)
    × (minute_of_day 0 (range_start_for 0 700_000_000 week) ≡ 0)
    × (week_day (day_number 0 (range_start_for 0 700_000_000 week)) ≡ 1)
week_start_example = week_start 0 700_000_000 (omega arith) (omega arith)
