-- ===== src/Redis/Availability.antt =====
-- What the methods of redis.service.ts answer without a server.
use charging_station_system.Prelude.{
  ◌+◌, ◌≤◌, ◌≡◌, refl, sym, subst, Bool, true, false, none, List, [], ◌∷◌, arith, All, map, length,
  length-append, ap, ◌⊎◌, inl, inr,
}
use charging_station_system.Redis.{
  Command, Reply, Library, RedisState, Method, on_module_init, on_module_destroy, ping, get, set,
  del, exists, queue_push, queue_pop, queue_remove, queue_range, queue_length, lock, unlock, Answer,
  no_answer, bool_answer, text_answer, number_answer, list_answer, guarded, call,
}

-- The answer of a method when there is no server.
abbrev pub default_answer : Method → Answer
default_answer on_module_init = no_answer
default_answer on_module_destroy = no_answer
default_answer ping = bool_answer false
default_answer (get k) = text_answer none
default_answer (set k v ttl) = no_answer
default_answer (del k) = no_answer
default_answer (exists k) = bool_answer false
default_answer (queue_push k vs) = no_answer
default_answer (queue_pop k) = text_answer none
default_answer (queue_remove k v) = no_answer
default_answer (queue_range k start stop) = list_answer []
default_answer (queue_length k) = number_answer 0
default_answer (lock k ttl) = bool_answer false
default_answer (unlock k) = no_answer

-- What the services call, between the start and the end of the module's life.
abbrev pub is_use : Method → Bool
is_use on_module_init = false
is_use on_module_destroy = false
is_use _ = true

module _ {S : Type 0} (send : Library S) where
  unfoldable pub call_all : List Method → RedisState S → List Answer × RedisState S
  call_all [] s = ([], s)
  call_all (m ∷ ms) s =
      let (answer, s') = call send m s in
      let (answers, s'') = call_all ms s' in (answer ∷ answers, s'')

  off_guarded :
      (c : Command) (read : Reply → Answer) (default : Answer) (s : RedisState S)
      → s.available ≡ false
      → guarded send c read default s ≡ (default, s)
  unfolding guarded
  off_guarded c read default s off = ground arith

  off_call :
      (m : Method) (s : RedisState S)
      → is_use m ≡ true
      → s.available ≡ false
      → call send m s ≡ (default_answer m, s)
  unfolding call
  off_call on_module_init s h off = cc
  off_call on_module_destroy s h off = cc
  off_call ping s h off = off_guarded _ _ _ s off
  off_call (get k) s h off = off_guarded _ _ _ s off
  off_call (set k v ttl) s h off = off_guarded _ _ _ s off
  off_call (del k) s h off = off_guarded _ _ _ s off
  off_call (exists k) s h off = off_guarded _ _ _ s off
  off_call (queue_push k []) s h off = refl
  off_call (queue_push k (v ∷ vs)) s h off = off_guarded _ _ _ s off
  off_call (queue_pop k) s h off = off_guarded _ _ _ s off
  off_call (queue_remove k v) s h off = off_guarded _ _ _ s off
  off_call (queue_range k start stop) s h off = off_guarded _ _ _ s off
  off_call (queue_length k) s h off = off_guarded _ _ _ s off
  off_call (lock k ttl) s h off = off_guarded _ _ _ s off
  off_call (unlock k) s h off = off_guarded _ _ _ s off

  -- Once the server counts as unavailable, no call asks it again: every one gives its default answer,
  -- and the state stays as it is.
  pub unavailable_stays :
      (ms : List Method) (s : RedisState S)
      → All (λ m. is_use m ≡ true) ms
      → s.available ≡ false
      → call_all ms s ≡ (map default_answer ms, s)
  unfolding call_all
  unavailable_stays [] s h off = refl
  unavailable_stays (m ∷ ms) s (h, hs) off =
      rw (off_call m s h off) (rw (unavailable_stays ms s hs off) refl)

  module _ (down : (c : Command) (s : S) → (send c s).0 ≡ none) where
    -- The answer is the default, and the call sent nothing or made the server unavailable.
    abbrev Failed : Answer → RedisState S → Answer × RedisState S → Type 0
    Failed default s r =
        (r.0 ≡ default)
        × ((r.1 ≡ s) ⊎ ((r.1.available ≡ false) × (length r.1.sent ≡ length s.sent + 1)))

    failing_at :
        (c : Command) (read : Reply → Answer) (default : Answer) (server : S) (available : Bool)
        (sent : List Command)
        → let s : RedisState S = record { server = server; available = available; sent = sent } in
          Failed default s (guarded send c read default s)
    unfolding guarded
    failing_at c read default server false sent = (refl, inl refl)
    failing_at c read default server true sent =
        rw (down c server) (refl, inr (refl, length-append sent (c ∷ [])))

    failing_guarded :
        (c : Command) (read : Reply → Answer) (default : Answer) (s : RedisState S)
        → Failed default s (guarded send c read default s)
    failing_guarded c read default s = failing_at c read default s.server s.available s.sent

    failing_call :
        (m : Method) (s : RedisState S)
        → is_use m ≡ true
        → Failed (default_answer m) s (call send m s)
    unfolding call
    failing_call on_module_init s h = cc
    failing_call on_module_destroy s h = cc
    failing_call ping s h = failing_guarded _ _ _ s
    failing_call (get k) s h = failing_guarded _ _ _ s
    failing_call (set k v ttl) s h = failing_guarded _ _ _ s
    failing_call (del k) s h = failing_guarded _ _ _ s
    failing_call (exists k) s h = failing_guarded _ _ _ s
    failing_call (queue_push k []) s h = (refl, inl refl)
    failing_call (queue_push k (v ∷ vs)) s h = failing_guarded _ _ _ s
    failing_call (queue_pop k) s h = failing_guarded _ _ _ s
    failing_call (queue_remove k v) s h = failing_guarded _ _ _ s
    failing_call (queue_range k start stop) s h = failing_guarded _ _ _ s
    failing_call (queue_length k) s h = failing_guarded _ _ _ s
    failing_call (lock k ttl) s h = failing_guarded _ _ _ s
    failing_call (unlock k) s h = failing_guarded _ _ _ s

    -- While the library throws at every command, all calls give their default answers, and at most one
    -- command is sent in all.
    pub outage :
        (ms : List Method) (s : RedisState S)
        → All (λ m. is_use m ≡ true) ms
        → ((call_all ms s).0 ≡ map default_answer ms)
          × (length (call_all ms s).1.sent ≤ length s.sent + 1)
    unfolding call_all
    outage [] s h = (refl, omega arith)
    outage (m ∷ ms) s (h, hs) =
        let (same, after) = failing_call m s h in
        let next = (call send m s).1 in
        elim after [
          | inl kept ↦
              let (answers, few) = outage ms s hs in
              subst
                (λ t.
                  (((call send m s).0 ∷ (call_all ms t).0)
                    ≡ default_answer m ∷ map default_answer ms)
                  × (length (call_all ms t).1.sent ≤ length s.sent + 1))
                (sym kept) (cc (same, answers), few)
          | inr (off, one) ↦
              let rest = unavailable_stays ms next hs off in
              (cc (same, ap (λ r. r.0) rest), omega (arith, one, ap (λ r. length r.1.sent) rest))
        ]
