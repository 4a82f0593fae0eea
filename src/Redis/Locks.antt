-- ===== src/Redis/Locks.antt =====
-- The lock of redis.service.ts on a server that keeps what Redis documents of
-- SET with NX and PX.
use charging_station_system.Prelude.{
  ℕ, ◌+◌, ◌≤◌, ◌<◌, arith, ◌≡◌, ◌⊎◌, refl, ap, sym, subst, Bool, true, false, Option, none, some,
  List, [], ◌∷◌, All, codes, eq_codes, Bool-cases, inl, inr, if◌then◌else◌,
}
use native.Mathlib.Nat.{le_trans}
use charging_station_system.Schema.{Codes}
use charging_station_system.Redis.{
  Command, connect_command, ping_command, quit_command, set_command, set_absent_command,
  del_command, lpop_command, lrem_command, Reply, null_reply, text_reply, number_reply, list_reply,
  Library, RedisState, Method, on_module_init, on_module_destroy, ping, get, set, del, exists,
  queue_push, queue_pop, queue_remove, queue_range, queue_length, lock, unlock, Answer, bool_answer,
  is_text, guarded, call, connected, pinged, answered, given,
}
use charging_station_system.Redis.Availability.{call_all}

-- The command may take the key away or shorten its life.
abbrev pub may_release : Codes → Command → Bool
may_release k (del_command j) = eq_codes j k
may_release k (lpop_command j) = eq_codes j k
may_release k (lrem_command j n v) = eq_codes j k
may_release k (set_command j v ttl) = eq_codes j k
may_release k _ = false

abbrev pub is_granted : Option Reply → Answer
is_granted none = bool_answer false
is_granted (some reply) = is_text (codes "OK") reply

-- What Redis documents of SET with NX and PX: it answers OK only where it sets a key that is not there,
-- which then stays for its milliseconds, if no command takes it away. `now` is the time of the server
-- at which a command finds it, and the key is there at every time before `until`.
pub record IsLockServer {S : Type 0} (send : Library S) (now : S → ℕ) (until : S → Codes → ℕ)
    : Type 0 where
  pub sets_absent :
      (k v : Codes) (ttl : ℕ) (s : S)
      → is_granted (send (set_absent_command k v ttl) s).0 ≡ bool_answer true
      → (until s k ≤ now s) × (now s + ttl ≤ until (send (set_absent_command k v ttl) s).1 k)
  pub keeps :
      (k : Codes) (c : Command) (s : S) → may_release k c ≡ false → until s k ≤ until (send c s).1 k

-- The method may take the key away or shorten its life.
abbrev pub may_unlock : Codes → Method → Bool
may_unlock k (del j) = eq_codes j k
may_unlock k (set j v ttl) = eq_codes j k
may_unlock k (unlock j) = eq_codes j k
may_unlock k (queue_pop j) = eq_codes j k
may_unlock k (queue_remove j v) = eq_codes j k
may_unlock k _ = false

module _ {S : Type 0} (send : Library S) (now : S → ℕ) (until : S → Codes → ℕ)
    (laws : IsLockServer send now until) (t : ℕ) where
  -- The key is there at every time before `t`.
  abbrev HoldsKey : Codes → RedisState S → Type 0
  HoldsKey k s = t ≤ until s.server k

  stays :
      (k : Codes) (c : Command) (s : S)
      → may_release k c ≡ false
      → t ≤ until s k
      → t ≤ until (send c s).1 k
  stays k c s h here = le_trans here (laws.keeps k c s h)

  after_answer :
      (k : Codes) (b : Bool) (o : Option Reply) (read : Reply → Answer) (default : Answer)
      (s t : RedisState S)
      → HoldsKey k s
      → HoldsKey k t
      → HoldsKey k (if b then answered send read default o t else (default, s)).1
  after_answer k false o read default s t h h' = h
  after_answer k true none read default s t h h' = h'
  after_answer k true (some reply) read default s t h h' = h'

  guarded_stays :
      (k : Codes) (c : Command) (read : Reply → Answer) (default : Answer) (s : RedisState S)
      → may_release k c ≡ false
      → HoldsKey k s
      → HoldsKey k (guarded send c read default s).1
  unfolding guarded
  guarded_stays k c read default s h here =
      after_answer k s.available (send c s.server).0 read default s (given send c s) here
        (stays k c s.server h here)

  pinged_stays :
      (k : Codes) (o : Option Reply) (s : RedisState S)
      → HoldsKey k s
      → HoldsKey k (pinged send o s)
  pinged_stays k none s h = h
  pinged_stays k (some reply) s h = h

  connected_stays :
      (k : Codes) (o : Option Reply) (s : RedisState S)
      → HoldsKey k s
      → HoldsKey k (connected send o s)
  connected_stays k none s h = h
  connected_stays k (some reply) s h =
      pinged_stays k (send ping_command s.server).0 (given send ping_command s)
        (stays k ping_command s.server refl h)

  if_stays :
      (k : Codes) (b : Bool) (s t : RedisState S)
      → HoldsKey k s
      → HoldsKey k t
      → HoldsKey k (if b then t else s)
  if_stays k true s t h h' = h'
  if_stays k false s t h h' = h

  call_stays :
      (k : Codes) (m : Method) (s : RedisState S)
      → may_unlock k m ≡ false
      → HoldsKey k s
      → HoldsKey k (call send m s).1
  unfolding call
  call_stays k on_module_init s h here =
      connected_stays k (send connect_command s.server).0 (given send connect_command s)
        (stays k connect_command s.server refl here)
  call_stays k on_module_destroy s h here =
      if_stays k s.available s (given send quit_command s) here
        (stays k quit_command s.server refl here)
  call_stays k ping s h here = guarded_stays k _ _ _ s refl here
  call_stays k (get j) s h here = guarded_stays k _ _ _ s refl here
  call_stays k (set j v ttl) s h here = guarded_stays k _ _ _ s h here
  call_stays k (del j) s h here = guarded_stays k _ _ _ s h here
  call_stays k (exists j) s h here = guarded_stays k _ _ _ s refl here
  call_stays k (queue_push j []) s h here = here
  call_stays k (queue_push j (v ∷ vs)) s h here = guarded_stays k _ _ _ s refl here
  call_stays k (queue_pop j) s h here = guarded_stays k _ _ _ s h here
  call_stays k (queue_remove j v) s h here = guarded_stays k _ _ _ s h here
  call_stays k (queue_range j start stop) s h here = guarded_stays k _ _ _ s refl here
  call_stays k (queue_length j) s h here = guarded_stays k _ _ _ s refl here
  call_stays k (lock j ttl) s h here = guarded_stays k _ _ _ s refl here
  call_stays k (unlock j) s h here = guarded_stays k _ _ _ s h here

  call_all_stays :
      (k : Codes) (ms : List Method) (s : RedisState S)
      → All (λ m. may_unlock k m ≡ false) ms
      → HoldsKey k s
      → HoldsKey k (call_all send ms s).1
  unfolding call_all
  call_all_stays k [] s h here = here
  call_all_stays k (m ∷ ms) s (h, hs) here =
      call_all_stays k ms (call send m s).1 hs (call_stays k m s h here)

module _ {S : Type 0} (send : Library S) (now : S → ℕ) (until : S → Codes → ℕ)
    (laws : IsLockServer send now until) where
  lock_answer :
      (k : Codes) (b : Bool) (o : Option Reply) (s t : RedisState S)
      → (if b
          then answered send (is_text (codes "OK")) (bool_answer false) o t
          else (bool_answer false, s)).0
        ≡ bool_answer true
      → (is_granted o ≡ bool_answer true)
        × ((if b
              then answered send (is_text (codes "OK")) (bool_answer false) o t
              else (bool_answer false, s)).1
            ≡ t)
  lock_answer k false o s t e = cc
  lock_answer k true none s t e = cc
  lock_answer k true (some reply) s t e = (e, refl)

  -- What it says that a lock is granted.
  granted :
      (k : Codes) (ttl : ℕ) (s : RedisState S)
      → (call send (lock k ttl) s).0 ≡ bool_answer true
      → (until s.server k ≤ now s.server)
        × (now s.server + ttl ≤ until (call send (lock k ttl) s).1.server k)
  unfolding call guarded
  granted k ttl s e =
      let c = set_absent_command k (codes "1") ttl in
      let (given_ok, same) = lock_answer k s.available (send c s.server).0 s (given send c s) e in
      let (absent, present) = laws.sets_absent k (codes "1") ttl s.server given_ok in
      (absent, subst (λ r. now s.server + ttl ≤ until r.server k) (sym same) present)

  lock_answers_bool :
      (k : Codes) (ttl : ℕ) (s : RedisState S)
      → ((call send (lock k ttl) s).0 ≡ bool_answer true)
        ⊎ ((call send (lock k ttl) s).0 ≡ bool_answer false)
  unfolding call guarded
  lock_answers_bool k ttl s =
      go s.available (send (set_absent_command k (codes "1") ttl) s.server).0
        (given send (set_absent_command k (codes "1") ttl) s)
    where
      go :
          (b : Bool) (o : Option Reply) (t : RedisState S)
          → ((if b
                then answered send (is_text (codes "OK")) (bool_answer false) o t
                else (bool_answer false, s)).0
              ≡ bool_answer true)
            ⊎ ((if b
                  then answered send (is_text (codes "OK")) (bool_answer false) o t
                  else (bool_answer false, s)).0
                ≡ bool_answer false)
      go false o t = inr refl
      go true none t = inr refl
      go true (some null_reply) t = inr refl
      go true (some (number_reply n)) t = inr refl
      go true (some (list_reply l)) t = inr refl
      go true (some (text_reply x)) t = elim (Bool-cases (eq_codes x (codes "OK"))) [
        | inl is_ok ↦ inl (ap bool_answer is_ok)
        | inr other ↦ inr (ap bool_answer other)
      ]

  -- On a server that keeps what Redis documents: after a lock was granted, it is granted to nobody
  -- before its time to live has passed by the clock of the server, until some call may take its key
  -- away or set it anew, whatever else is called and however the connection fails.
  pub lock_exclusive :
      (k : Codes) (ttl ttl' : ℕ) (ms : List Method) (s : RedisState S)
      → (call send (lock k ttl) s).0 ≡ bool_answer true
      → All (λ m. may_unlock k m ≡ false) ms
      → let later = (call_all send ms (call send (lock k ttl) s).1).1 in
        now later.server < now s.server + ttl
        → (call send (lock k ttl') later).0 ≡ bool_answer false
  lock_exclusive k ttl ttl' ms s e h early =
      let later = (call_all send ms (call send (lock k ttl) s).1).1 in
      let here =
        call_all_stays send now until laws (now s.server + ttl) k ms (call send (lock k ttl) s).1 h
          (granted k ttl s e).1 in
      elim (lock_answers_bool k ttl' later) [
        | inl again ↦
            let absent = (granted k ttl' later again).0 in
            let impossible : ⊥ = omega arith in elim impossible [ ]
        | inr refused ↦ refused
      ]
