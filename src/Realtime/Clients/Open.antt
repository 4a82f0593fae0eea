-- ===== src/Realtime/Clients/Open.antt =====
-- Which sockets a broadcast reaches, from the events so far.
use charging_station_system.Prelude.{
  ℕ, ◌≡◌, refl, sym, subst, ap, ◌∙◌, Bool, true, false, not, ◌&&◌, ◌||◌, List, [], ◌∷◌, ◌++◌, map,
  arith, ◌==◌, if◌then◌else◌, includes, filter_by, count_by, ◌+◌, Bool-cases, inl, inr, ==→≡,
}
use charging_station_system.Schema.{Codes}
use charging_station_system.Realtime.Frame.{encode_text_frame}
use charging_station_system.Realtime.Clients.{
  Header, single, UpgradeRequest, RealtimeState, SocketEffect, destroy, write, RealtimeEvent,
  attach_call, upgrade, socket_closed, socket_failed, is_station_url, add_client, delete_client,
  on_upgrade, handle, broadcast, no_clients,
}

abbrev pub has_key : Header → Bool
has_key (single key) = true
has_key _ = false

-- The request is for the station's path and has one key.
abbrev pub is_accepted : UpgradeRequest → Bool
is_accepted r = is_station_url r.url && has_key r.key

-- The socket is open after the events, from whether the server was attached and the socket open before:
-- an accepted upgrade of an attached server opens it, its close or failure closes it.
unfoldable pub open_after : ℕ → List RealtimeEvent → Bool → Bool → Bool
open_after s [] attached open_before = open_before
open_after s (attach_call ∷ es) attached open_before = open_after s es true open_before
open_after s (upgrade r ∷ es) attached open_before =
    open_after s es attached (open_before || (attached && (is_accepted r && r.socket == s)))
open_after s (socket_closed i ∷ es) attached open_before =
    open_after s es attached (open_before && not (i == s))
open_after s (socket_failed i ∷ es) attached open_before =
    open_after s es attached (open_before && not (i == s))

unfoldable pub handle_all : (Codes → Codes) → List RealtimeEvent → RealtimeState → RealtimeState
handle_all accept [] s = s
handle_all accept (e ∷ es) s = handle_all accept es (handle accept e s).0

includes-append : (s i : ℕ) (cs : List ℕ) → includes (cs ++ (i ∷ [])) s ≡ (includes cs s || i == s)
includes-append s i [] = ground arith
includes-append s i (c ∷ cs) = ground (arith, includes-append s i cs)

includes-add_client :
    (s i : ℕ) (cs : List ℕ) → includes (add_client i cs) s ≡ (includes cs s || i == s)
includes-add_client s i cs = elim (Bool-cases (includes cs i)) [
  | inl known ↦ elim (Bool-cases (i == s)) [
    | inl same ↦
        let there : includes cs s ≡ true =
          subst (λ k. includes cs k ≡ true) (==→≡ i s same) known in
        rw known (ground arith)
    | inr other ↦ rw known (ground arith)
  ]
  | inr new ↦ rw new (includes-append s i cs)
]

includes-delete_client :
    (s i : ℕ) (cs : List ℕ) → includes (delete_client i cs) s ≡ (includes cs s && not (i == s))
includes-delete_client s i [] = refl
includes-delete_client s i (c ∷ cs) = ground (arith, includes-delete_client s i cs)

-- How often a socket is in the list.
abbrev times : ℕ → List ℕ → ℕ
times s = count_by (λ c. c == s)

times-append : (s i : ℕ) (cs : List ℕ) → times s (cs ++ (i ∷ [])) ≡ times s cs + times s (i ∷ [])
times-append s i [] = ground arith
times-append s i (c ∷ cs) = ground (arith, times-append s i cs)

-- A socket is in the list at most once.
abbrev Once : ℕ → List ℕ → Type 0
Once s cs = times s cs ≡ (if includes cs s then 1 else 0)

Once-add_client : (s i : ℕ) (cs : List ℕ) → Once s cs → Once s (add_client i cs)
Once-add_client s i cs once = elim (Bool-cases (includes cs i)) [
  | inl known ↦ rw known once
  | inr new ↦ elim (Bool-cases (i == s)) [
    | inl same ↦
        let absent : includes cs s ≡ false =
          subst (λ k. includes cs k ≡ false) (==→≡ i s same) new in
        rw new (ground (arith, times-append s i cs, includes-append s i cs))
    | inr other ↦ rw new (ground (arith, times-append s i cs, includes-append s i cs))
  ]
]

times-filter_by :
    (s : ℕ) (t : ℕ → Bool) (cs : List ℕ)
    → times s (filter_by t cs) ≡ (if t s then times s cs else 0)
times-filter_by s t [] = ground arith
times-filter_by s t (c ∷ cs) = elim (Bool-cases (c == s)) [
  | inl same ↦ ground (arith, ap t (==→≡ c s same), times-filter_by s t cs)
  | inr other ↦ ground (arith, times-filter_by s t cs)
]

Once-delete_client : (s i : ℕ) (cs : List ℕ) → Once s cs → Once s (delete_client i cs)
Once-delete_client s i cs once =
    ground (arith, times-filter_by s (λ c. not (c == i)) cs, includes-delete_client s i cs)

module _ (accept : Codes → Codes) (s : ℕ) where
  -- What an event does to the socket.
  abbrev Follows : RealtimeEvent → RealtimeState → Type 0
  Follows e st =
      ((es : List RealtimeEvent)
        → open_after s (e ∷ es) st.attached (includes st.clients s)
          ≡ open_after s es (handle accept e st).0.attached
              (includes (handle accept e st).0.clients s))
      × Once s (handle accept e st).0.clients

  upgrade_follows :
      (r : UpgradeRequest) (cs : List ℕ)
      → Once s cs
      → (includes (on_upgrade accept r cs).0 s
          ≡ (includes cs s || (is_accepted r && r.socket == s)))
        × Once s (on_upgrade accept r cs).0
  unfolding on_upgrade
  upgrade_follows r cs once =
      ground (arith, includes-add_client s r.socket cs, Once-add_client s r.socket cs once)

  handle-Follows :
      (e : RealtimeEvent) (cs : List ℕ) (attached : Bool)
      → Once s cs
      → Follows e (record { clients = cs; attached = attached })
  unfolding handle open_after
  handle-Follows attach_call cs true once = (λ es. refl, once)
  handle-Follows attach_call cs false once = (λ es. refl, once)
  handle-Follows (upgrade r) cs true once =
      let (opened, once') = upgrade_follows r cs once in
      (λ es. ap (open_after s es true) (sym opened), once')
  handle-Follows (upgrade r) cs false once = (λ es. ap (open_after s es false) (ground arith), once)
  handle-Follows (socket_closed i) cs attached once = (
    λ es. ap (open_after s es attached) (sym (includes-delete_client s i cs)),
    Once-delete_client s i cs once,
  )
  handle-Follows (socket_failed i) cs attached once = (
    λ es. ap (open_after s es attached) (sym (includes-delete_client s i cs)),
    Once-delete_client s i cs once,
  )

  handle_all_follows :
      (es : List RealtimeEvent) (st : RealtimeState)
      → Once s st.clients
      → (includes (handle_all accept es st).clients s
          ≡ open_after s es st.attached (includes st.clients s))
        × Once s (handle_all accept es st).clients
  unfolding handle_all open_after
  handle_all_follows [] st once = (refl, once)
  handle_all_follows (e ∷ es) st once =
      let (same, once') = handle-Follows e st.clients st.attached once in
      let (rest, last) = handle_all_follows es (handle accept e st).0 once' in
      (rest ∙ sym (same es), last)

-- Whether the effect is the write of these bytes to the socket.
abbrev pub writes_to : ℕ → SocketEffect → Bool
writes_to s (destroy i) = false
writes_to s (write i bytes) = i == s

times-writes :
    (s : ℕ) (text : Codes) (cs : List ℕ)
    → count_by (writes_to s) (map (λ c. write c (encode_text_frame text)) cs) ≡ times s cs
times-writes s text [] = refl
times-writes s text (c ∷ cs) = ground (arith, times-writes s text cs)

-- After any events, a broadcast is written once to a socket that is open by these events and not
-- destroyed, and to no other socket.
pub broadcast_reaches :
    (accept : Codes → Codes) (es : List RealtimeEvent) (destroyed : ℕ → Bool) (text : Codes) (s : ℕ)
    → count_by (writes_to s) (broadcast destroyed text (handle_all accept es no_clients))
      ≡ (if open_after s es false false && not (destroyed s) then 1 else 0)
unfolding broadcast
broadcast_reaches accept es destroyed text s =
    let (opened, once) = handle_all_follows accept s es no_clients refl in
    let cs = (handle_all accept es no_clients).clients in
    ground (
      arith,
      times-writes s text (filter_by (λ c. not (destroyed c)) cs),
      times-filter_by s (λ c. not (destroyed c)) cs,
      opened,
      once,
    )
