-- ===== src/Redis.antt =====
-- The Redis client of the server, apps/server/src/redis/redis.service.ts. The connection and the server
-- behind it are a parameter: what the client's library answers to a command, if it does not throw.
pub mod Availability
pub mod Locks
use charging_station_system.Prelude.{
  ℕ, Bool, true, false, ◌==◌, Option, none, some, List, [], ◌∷◌, ◌++◌, if◌then◌else◌, or_else,
  codes, eq_codes,
}
use charging_station_system.Schema.{Codes}

pub data Command : Type 0 where
  connect_command ping_command quit_command : Command
  get_command : Codes → Command
  set_command : Codes → Codes → Option ℕ → Command
  set_absent_command : Codes → Codes → ℕ → Command
  del_command exists_command lpop_command llen_command : Codes → Command
  rpush_command : Codes → List Codes → Command
  lrem_command : Codes → ℕ → Codes → Command
  lrange_command : Codes → ℕ → Option ℕ → Command

pub data Reply : Type 0 where
  null_reply : Reply
  text_reply : Codes → Reply
  number_reply : ℕ → Reply
  list_reply : List Codes → Reply

-- `none` where the library throws.
abbrev pub Library : Type 0 → Type 0
Library S = Command → S → Option Reply × S

pub record RedisState (S : Type 0) : Type 0 where
  pub server : S
  pub available : Bool
  -- The commands given to the library so far, the latest last.
  pub sent : List Command

-- The methods, as `call` performs them.
pub data Method : Type 0 where
  on_module_init on_module_destroy ping : Method
  get : Codes → Method
  set : Codes → Codes → Option ℕ → Method
  del exists queue_pop queue_length : Codes → Method
  queue_push : Codes → List Codes → Method
  queue_remove : Codes → Codes → Method
  -- Without an end, to the end of the list, which is the end -1.
  queue_range : Codes → ℕ → Option ℕ → Method
  lock : Codes → ℕ → Method
  unlock : Codes → Method

pub data Answer : Type 0 where
  no_answer : Answer
  bool_answer : Bool → Answer
  text_answer : Option Codes → Answer
  number_answer : ℕ → Answer
  list_answer : List Codes → Answer

abbrev pub text_of : Reply → Answer
text_of (text_reply t) = text_answer (some t)
text_of _ = text_answer none

abbrev pub number_of_reply : Reply → Answer
number_of_reply (number_reply n) = number_answer n
number_of_reply _ = number_answer 0

abbrev pub list_of : Reply → Answer
list_of (list_reply l) = list_answer l
list_of _ = list_answer []

-- `reply === text`
abbrev pub is_text : Codes → Reply → Answer
is_text expected (text_reply t) = bool_answer (eq_codes t expected)
is_text expected _ = bool_answer false

abbrev pub is_one : Reply → Answer
is_one (number_reply n) = bool_answer (n == 1)
is_one _ = bool_answer false

abbrev pub ignored : Reply → Answer
ignored reply = no_answer

-- `if (ttlSeconds)`: a lifetime of 0 is none.
abbrev pub positive_ttl : Option ℕ → Option ℕ
positive_ttl none = none
positive_ttl (some n) = if n == 0 then none else some n

module _ {S : Type 0} (send : Library S) where
  abbrev pub given : Command → RedisState S → RedisState S
  given c s = record s { server = (send c s.server).1; sent = s.sent ++ (c ∷ []) }

  -- `markUnavailable`
  abbrev pub mark_unavailable : RedisState S → RedisState S
  mark_unavailable s = record s { available = false }

  -- The body of a `try`: the answer to the command, or the default if it throws.
  abbrev pub answered :
      (Reply → Answer) → Answer → Option Reply → RedisState S → Answer × RedisState S
  answered read default none s = (default, mark_unavailable s)
  answered read default (some reply) s = (read reply, s)

  unfoldable pub guarded :
      Command → (Reply → Answer) → Answer → RedisState S → Answer × RedisState S
  guarded c read default s =
      if s.available then answered read default (send c s.server).0 (given c s) else (default, s)

  -- The `try` of `onModuleInit`.
  abbrev pub pinged : Option Reply → RedisState S → RedisState S
  pinged none s = record s { available = false }
  pinged (some reply) s = record s { available = true }

  abbrev pub connected : Option Reply → RedisState S → RedisState S
  connected none s = record s { available = false }
  connected (some reply) s = pinged (send ping_command s.server).0 (given ping_command s)

  unfoldable pub call : Method → RedisState S → Answer × RedisState S
  unfolding guarded
  call on_module_init s =
      (no_answer, connected (send connect_command s.server).0 (given connect_command s))
  call on_module_destroy s = (no_answer, if s.available then given quit_command s else s)
  call ping s = guarded ping_command (is_text (codes "PONG")) (bool_answer false) s
  call (get k) s = guarded (get_command k) text_of (text_answer none) s
  call (set k v ttl) s = guarded (set_command k v (positive_ttl ttl)) ignored no_answer s
  call (del k) s = guarded (del_command k) ignored no_answer s
  call (exists k) s = guarded (exists_command k) is_one (bool_answer false) s
  call (queue_push k []) s = (no_answer, s)
  call (queue_push k (v ∷ vs)) s = guarded (rpush_command k (v ∷ vs)) ignored no_answer s
  call (queue_pop k) s = guarded (lpop_command k) text_of (text_answer none) s
  call (queue_remove k v) s = guarded (lrem_command k 0 v) ignored no_answer s
  call (queue_range k start stop) s =
      guarded (lrange_command k start stop) list_of (list_answer []) s
  call (queue_length k) s = guarded (llen_command k) number_of_reply (number_answer 0) s
  call (lock k ttl) s =
      guarded (set_absent_command k (codes "1") ttl) (is_text (codes "OK")) (bool_answer false) s
  call (unlock k) s = guarded (del_command k) ignored no_answer s

-- What `getJson` returns or throws.
pub data JsonAnswer (J : Type 0) : Type 0 where
  json_null json_failed : JsonAnswer J
  json_value : J → JsonAnswer J

module _ {S J : Type 0} (send : Library S) where
  -- `JSON.stringify` and `JSON.parse`, which throws on what is no JSON, are parameters.
  unfoldable pub set_json :
      (J → Codes) → Codes → J → Option ℕ → RedisState S → Answer × RedisState S
  set_json stringify k value ttl = call send (set k (stringify value) ttl)

  abbrev pub parsed : (Codes → Option J) → Answer → JsonAnswer J
  parsed parse (text_answer (some (c ∷ cs))) = elim (parse (c ∷ cs)) [
    | none ↦ json_failed
    | some value ↦ json_value value
  ]
  parsed parse _ = json_null

  unfoldable pub get_json : (Codes → Option J) → Codes → RedisState S → JsonAnswer J × RedisState S
  get_json parse k s = let (answer, s') = call send (get k) s in (parsed parse answer, s')
